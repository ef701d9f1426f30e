-- ===== src/RateLimit/Tests.antt =====
-- A client that writes an address of its own behind two proxies.
use oublie_pas_backend.Base.{◌∷◌, [], none, ◌≡◌, refl}
use oublie_pas_backend.RateLimit.{client_ip}
use oublie_pas_backend.Errors.{ok}
use oublie_pas_backend.RateLimit.Spoofing.{client_ip-spoofed}

client_ip-spoofed_example :
    client_ip (λ s. s) 2 ("10.0.0.1" ∷ "203.0.113.9" ∷ "198.51.100.1" ∷ []) none ≡ ok "203.0.113.9"
client_ip-spoofed_example =
    client_ip-spoofed (λ s. s) ("10.0.0.1" ∷ []) ("198.51.100.1" ∷ []) "203.0.113.9" none refl
      (refl, tt)
