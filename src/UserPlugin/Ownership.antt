-- ===== src/UserPlugin/Ownership.antt =====
-- Calls on another user's install.
use smart_assistant_api.Common.{
  false, ℕ, String, ◌≡◌, refl, ◌≢◌, ◌⊎◌, inl, inr, Bool, some, str_eq, eq_iff, arith,
}
use smart_assistant_api.Common.Exec.{Result, err, Exec, ◌>>=◌}
use smart_assistant_api.Response.{AppError, forbidden, internal}
use smart_assistant_api.Store.Contract.{Contract}
use smart_assistant_api.UserPlugin.{UserPlugin, key, holds}
use smart_assistant_api.UserPlugin.Service.{Backend, World, uninstall, set_enabled, owned_install}

-- The error of a call that may not touch the install, or that could not load it.
abbrev pub IsRefused : {A : Type 0} → Result AppError A → Type 0
IsRefused r =
    (r ≡ err (forbidden "cannot modify another user's plugin"))
    ⊎ (r ≡ err (internal "failed to load installed plugin"))

module _ {b : Backend} (c : Contract key holds b.installs) (u id : String) (w : World b)
    (x : UserPlugin) (there : c.rows w.installs id ≡ some x) (foreign : x.user_id ≢ u) where
  not_mine : str_eq x.user_id u ≡ false
  not_mine = ground (arith, eq_iff x.user_id u)

  refused :
      {A : Type 0} (f : UserPlugin → Exec (World b) AppError A)
      → IsRefused ((owned_install b u id >>= f) w).0 × (((owned_install b u id >>= f) w).1 ≡ w)
  refused f = elim (c.find_by_id_law id w.installs) [
    | inl h ↦ rw (h, there, not_mine) (inl refl, refl)
    | inr h ↦ rw h (inr refl, refl)
  ]

  -- Uninstall and SetEnabled on an install of another user fail, and change nothing: no install, no
  -- credential and no reminder.
  pub foreign-IsRefused :
      (now : ℕ) (flag : Bool)
      → (IsRefused (uninstall b u id w).0 × ((uninstall b u id w).1 ≡ w))
        × (IsRefused (set_enabled b now u id flag w).0 × ((set_enabled b now u id flag w).1 ≡ w))
  unfolding uninstall set_enabled
  foreign-IsRefused now flag = (refused _, refused _)
