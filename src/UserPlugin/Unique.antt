-- ===== src/UserPlugin/Unique.antt =====
-- How many installs of one plugin a user has, over any history of calls.
use smart_assistant_api.Common.{
  ℕ, String, ◌≡◌, refl, sym, ◌∙◌, ap, Bool, true, false, Option, some, List, [], ◌∷◌, all, arith,
  str_eq, eq_iff, Bool-cases, inl, inr,
}
use mathlib.Core.Option.{some-injective}
use smart_assistant_api.Common.Exec.{Result, ok, err}
use smart_assistant_api.Common.Results.{Result-cases}
use smart_assistant_api.Common.Text.{trim_space, to_lower}
use smart_assistant_api.Store.Contract.{Contract, Rows, Put, hit, no_hit, StoreError}
use smart_assistant_api.Plugin.{Plugin, find_by_slug}
use smart_assistant_api.UserPlugin.{UserPlugin, key, holds, pair_query}
use smart_assistant_api.UserPlugin.Service.{
  Backend, World, install, install_plugin, new_install, uninstall, set_enabled, created, after_race,
}
use smart_assistant_api.UserPlugin.Effects.{
  Change, keeps, drops, switches, set_enabled-AllChange, uninstall-AllChange,
}

abbrev pub IsUnique : Rows UserPlugin → Type 0
IsUnique rows =
    (i j : String) (x y : UserPlugin)
    → rows i ≡ some x
    → rows j ≡ some y
    → x.user_id ≡ y.user_id
    → x.plugin_id ≡ y.plugin_id
    → i ≡ j

-- What stands behind a row after a change: a row of the same user and plugin.
record IsSource (o : Option UserPlugin) (x' : UserPlugin) : Type 0 where
  pub row : UserPlugin
  pub there : o ≡ some row
  pub user : row.user_id ≡ x'.user_id
  pub plugin : row.plugin_id ≡ x'.plugin_id

source :
    (u : String) (before after : Option UserPlugin) (x' : UserPlugin)
    → Change u before after
    → after ≡ some x'
    → IsSource before x'
source u before after x' (keeps same) h = record {
  row = x';
  there = sym same ∙ h;
  user = refl;
  plugin = refl;
}
source u before after x' (drops x there mine gone) h = absurd (cc)
source u before after x' (switches x flag now there mine put) h =
    let e = some-injective _ _ (sym put ∙ h) in
    record {
      row = x;
      there = there;
      user = ap (λ r. r.user_id) e;
      plugin = ap (λ r. r.plugin_id) e;
    }

Change-IsUnique :
    (u : String) (before after : Rows UserPlugin)
    → ((j : String) → Change u (before j) (after j))
    → IsUnique before
    → IsUnique after
Change-IsUnique u before after change unique i j x y hx hy user plugin =
    let sx = source u (before i) (after i) x (change i) hx in
    let sy = source u (before j) (after j) y (change j) hy in
    unique i j sx.row sy.row sx.there sy.there (sx.user ∙ user ∙ sym sy.user)
      (sx.plugin ∙ plugin ∙ sym sy.plugin)

pub pair_fits :
    (u p : String) (x : UserPlugin)
    → u ≡ x.user_id
    → p ≡ x.plugin_id
    → all (holds x) (pair_query u p).conditions ≡ true
pair_fits u p x user plugin = ground (arith, eq_iff x.user_id u, eq_iff x.plugin_id p)

-- A row put beside rows of other pairs.
Put-IsUnique :
    (i : String) (e : UserPlugin) (before after : Rows UserPlugin)
    → Put i e before after
    → ((j : String) (y : UserPlugin)
        → before j ≡ some y
        → all (holds y) (pair_query e.user_id e.plugin_id).conditions ≡ false)
    → IsUnique before
    → IsUnique after
Put-IsUnique i e before after put alone unique j k x y hx hy user plugin = ground (
  arith,
  put j,
  put k,
  eq_iff i j,
  eq_iff i k,
  alone j x,
  alone k y,
  pair_fits e.user_id e.plugin_id x,
  pair_fits e.user_id e.plugin_id y,
  unique j k x y,
)

pub data Call : Type 0 where
  add : (id : String) (now : ℕ) (user_id slug : String) → Call
  remove : (user_id install_id : String) → Call
  switch : (now : ℕ) (user_id install_id : String) (flag : Bool) → Call

unfoldable pub after : (b : Backend) → Call → World b → World b
unfolding install uninstall set_enabled
after b (add id now u slug) w = (install b id now u slug w).1
after b (remove u id) w = (uninstall b u id w).1
after b (switch now u id flag) w = (set_enabled b now u id flag w).1

unfoldable pub after_all : (b : Backend) → List Call → World b → World b
unfolding after
after_all b [] w = w
after_all b (e ∷ es) w = after_all b es (after b e w)

module _ {b : Backend} (c : Contract key holds b.installs) where
  made-IsUnique :
      (e : UserPlugin) (w : World b)
      → ((j : String) (y : UserPlugin)
          → c.rows w.installs j ≡ some y
          → all (holds y) (pair_query e.user_id e.plugin_id).conditions ≡ false)
      → IsUnique (c.rows w.installs)
      → IsUnique (c.rows (b.installs.create e w.installs).1)
  made-IsUnique e w alone unique = elim (c.create_law e w.installs) [
    | inl (r, put) ↦ Put-IsUnique e.id e _ _ put alone unique
    | inr (r, same) ↦ λ i j x y hx hy. unique i j x y (sym (same i) ∙ hx) (sym (same j) ∙ hy)
  ]

  after_race-IsUnique :
      (u : String) (p : Plugin) (w : World b)
      → IsUnique (c.rows w.installs)
      → IsUnique (c.rows (after_race b u p w).1.installs)
  unfolding after_race
  after_race-IsUnique u p w unique =
      elim (Result-cases (b.installs.find_one (pair_query u p.id) w.installs)) [
        | inl (x, r) ↦ rw (r, after_race) unique
        | inr (e, r) ↦ rw (r, after_race) unique
      ]

  create-IsUnique :
      (u : String) (p : Plugin) (up : UserPlugin) (r : Result StoreError (Unit {0})) (w : World b)
      → IsUnique (c.rows w.installs)
      → IsUnique (c.rows (created b u p up r w).1.installs)
  create-IsUnique u p up (ok x) w unique = unique
  create-IsUnique u p up (err e) w unique = after_race-IsUnique u p w unique

  install_plugin-IsUnique :
      (id : String) (now : ℕ) (u : String) (p : Plugin) (w : World b)
      → IsUnique (c.rows w.installs)
      → IsUnique (c.rows (install_plugin b id now u p w).1.installs)
  unfolding install_plugin
  install_plugin-IsUnique id now u p w unique =
      let up = new_install id now u p in
      let (r', s') = b.installs.create up w.installs in
      elim (c.find_one_law (pair_query u p.id) w.installs) [
        | inl (hit i x there fits r) ↦ rw (r, install_plugin) unique
        | inl (no_hit alone r) ↦
            rw (r, install_plugin)
              (create-IsUnique u p up r' (record w { installs = s' })
                (made-IsUnique up w alone unique))
        | inr r ↦ rw (r, install_plugin) unique
      ]

  install-IsUnique :
      (id : String) (now : ℕ) (u slug : String) (w : World b)
      → IsUnique (c.rows w.installs)
      → IsUnique (c.rows (install b id now u slug w).1.installs)
  unfolding install
  install-IsUnique id now u slug w unique =
      elim (Bool-cases (str_eq (to_lower (trim_space slug)) "")) [
        | inl empty ↦ rw empty unique
        | inr named ↦
            elim (Result-cases (find_by_slug b.catalog (to_lower (trim_space slug)) w.catalog)) [
              | inl (p, r) ↦ rw (named, r) (install_plugin-IsUnique id now u p w unique)
              | inr (e, r) ↦ rw (named, r) unique
            ]
      ]

  after-IsUnique :
      (e : Call) (w : World b)
      → IsUnique (c.rows w.installs)
      → IsUnique (c.rows (after b e w).installs)
  unfolding after
  after-IsUnique (add id now u slug) w unique = install-IsUnique id now u slug w unique
  after-IsUnique (remove u id) w unique =
      Change-IsUnique u _ _ (uninstall-AllChange c u id w) unique
  after-IsUnique (switch now u id flag) w unique =
      Change-IsUnique u _ _ (set_enabled-AllChange c u now id flag w) unique

  -- Whatever calls of Install, Uninstall and SetEnabled run one after the other, over any store
  -- that keeps the contract and whatever fails in them, no user has two installs of one plugin if
  -- none had at the start.
  pub after_all-IsUnique :
      (es : List Call) (w : World b)
      → IsUnique (c.rows w.installs)
      → IsUnique (c.rows (after_all b es w).installs)
  unfolding after_all
  after_all-IsUnique [] w unique = unique
  after_all-IsUnique (e ∷ es) w unique =
      after_all-IsUnique es (after b e w) (after-IsUnique e w unique)
