-- ===== src/RateLimit/Keys.antt =====
-- The budgets that clients share.
use Prim.Native.Char.{code}
use Prim.Native.String
use Prim.Native.String.{char_at}
use text.Mathlib.TextLemmas.{cons-append, head-eq_of_cons-eq, append_cancel_left}
use smart_assistant_api.Common.{ℕ, String, ◌≡◌, ◌≢◌, ◌↔◌, ◌⊎◌, eq_iff, arith, ap, sym, ◌∙◌}
use smart_assistant_api.RateLimit.{client_ip, rate_key}

uid_tail : (a b : String) → String.◌++◌ "uid:" a ≡ String.◌++◌ "uid:" b → a ≡ b
uid_tail a b h = append_cancel_left "uid:" a b h

uid_ip : (a b : String) → String.◌++◌ "uid:" a ≢ String.◌++◌ "ip:" b
uid_ip a b h =
    let heads : char_at "u" 0 ≡ char_at "i" 0 =
      head-eq_of_cons-eq
        (sym (cons-append (char_at "u" 0) "id:" a) ∙ h ∙ cons-append (char_at "i" 0) "p:" b) in
    let codes : ◌≡◌ {A = ℕ} 117 105 = ap code heads in absurd (omega arith)

ip_tail : (a b : String) → String.◌++◌ "ip:" a ≡ String.◌++◌ "ip:" b → a ≡ b
ip_tail a b h = append_cancel_left "ip:" a b h

-- Two requests share a budget when they come from the same user, or both from no user and with the
-- same RemoteAddr, port included (one that is empty counts as "unknown"), and never otherwise.
pub rate_key_shared :
    (u a u' a' : String)
    → rate_key u a ≡ rate_key u' a'
      ↔ (((u ≢ "") × (u ≡ u')) ⊎ ((u ≡ "") × (u' ≡ "") × (client_ip a ≡ client_ip a')))
unfolding rate_key
rate_key_shared u a u' a' = ground (
  arith,
  eq_iff u "",
  eq_iff u' "",
  uid_tail u u',
  ip_tail (client_ip a) (client_ip a'),
  uid_ip u (client_ip a'),
  uid_ip u' (client_ip a),
)
