-- ===== src/Queue/Delivery.antt =====
-- How often a delivery calls its handler.
use smart_assistant_api.Common.{
  ℕ, zero, suc, ◌+◌, ◌-◌, ◌≤◌, ◌≡◌, ◌≢◌, Bool, arith, leb, subst, Bool-cases, inl, inr,
}
use smart_assistant_api.Queue.{Message, Outcome, dropped, out_of_fuel, dispatch}

module _ {H : Type 0} (handler : Message → H → Bool × H) where
  -- The handler, with a count of its calls.
  unfoldable pub counting : Message → ℕ × H → Bool × (ℕ × H)
  counting m (n, h) = let (worked, h') = handler m h in (worked, (suc n, h'))

-- The attempts that are left to a message: at least one.
abbrev pub left : ℕ → Message → ℕ
left max_attempts m = suc (max_attempts - suc m.attempts)

-- A delivery that ends does so within the attempts, and drops only after the last of them.
pub record IsBounded (calls allowed : ℕ) (result : Outcome) : Type 0 where
  pub ended : result ≢ out_of_fuel
  pub within : calls ≤ allowed
  pub spent : result ≡ dropped → calls ≡ allowed

IsBounded-more :
    (calls n k j : ℕ) (result : Outcome)
    → n + k ≡ j
    → IsBounded calls (n + k) result
    → IsBounded calls j result
IsBounded-more calls n k j result e b = subst (λ x. IsBounded calls x result) e b

module _ {H : Type 0} (handler : Message → H → Bool × H) (max_attempts : ℕ)
    (halted : ℕ → Bool) where
  -- With fuel for the attempts that are left to a message, a delivery ends; it calls the handler at
  -- most that often, and drops the message only when it has called it that often.
  pub dispatch-IsBounded :
      (fuel : ℕ) (m : Message) (n : ℕ) (h : H)
      → left max_attempts m ≤ fuel
      → IsBounded
          (dispatch (counting handler) max_attempts halted fuel m (n, h)).1.0
          (n + left max_attempts m)
          (dispatch (counting handler) max_attempts halted fuel m (n, h)).0
  unfolding dispatch counting
  dispatch-IsBounded zero m n h le = absurd (omega arith)
  dispatch-IsBounded (suc fuel) m n h le =
      let m' : Message = record m { attempts = suc m.attempts } in
      elim (Bool-cases (handler m' h).0) [
        | inl worked ↦
            rw worked (record { ended = cc; within = omega arith; spent = λ e. absurd (cc) })
        | inr failed ↦ elim (Bool-cases (leb max_attempts (suc m.attempts))) [
          | inl last ↦
              rw (failed, last)
                (record { ended = cc; within = omega arith; spent = λ e. ground arith })
          | inr more ↦ elim (Bool-cases (halted (suc m.attempts))) [
            | inl halt ↦
                rw (failed, more, halt)
                  (record { ended = cc; within = omega arith; spent = λ e. absurd (cc) })
            | inr going ↦
                rw (failed, more, going)
                  (IsBounded-more _ (suc n) (left max_attempts m') (n + left max_attempts m) _
                    (ground arith)
                    (dispatch-IsBounded fuel m' (suc n) (handler m' h).1 (ground arith)))
          ]
        ]
      ]
