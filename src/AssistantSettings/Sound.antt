-- ===== src/AssistantSettings/Sound.antt =====
-- What the rows of the settings hold, and what a conversation can rely on.
use smart_assistant_api.Common.{
  ℕ, String, ◌≡◌, ◌≢◌, ◌≤◌, refl, true, false, Option, none, some, List, [], ◌∷◌, inl, inr, ltb,
  str_eq, eq_iff, Bool-cases, arith, subst,
}
use smart_assistant_api.Common.Int.{ℤ, pos, negsuc}
use smart_assistant_api.Common.Text.{trim_space, to_lower, rune_count}
use smart_assistant_api.Common.Trimming.{trim_space-twice}
use smart_assistant_api.Common.Exec.{ok}
use smart_assistant_api.Common.Results.{Result-cases}
use smart_assistant_api.Store.Contract.{Store, missing, failure, Rows, Contract}
use smart_assistant_api.Store.Contract.Effects.{find_by_id-ok, create-steps, update-steps}
use smart_assistant_api.Assistant.WakeWord.{strip_wake_word}
use smart_assistant_api.Assistant.Stripping.{Stripped, keeps_size, strip_wake_word-Stripped}
use smart_assistant_api.AssistantSettings.{
  Settings, UpdateInput, key, holds, defaults, changed, out_of_range, chosen_threshold,
  get_or_create, update_checked, update,
}

abbrev pub InRange : ℤ → Type 0
InRange (pos n) = (10 ≤ n) × (n ≤ 5000)
InRange (negsuc n) = ⊥

-- A wake word that is not blank and not too long.
abbrev pub IsWakeWord : String → Type 0
unfolding rune_count
IsWakeWord s = (trim_space s ≢ "") × (rune_count s ≤ 32)

abbrev pub IsSound : String → Option Settings → Type 0
IsSound i none = Unit {0}
IsSound i (some x) =
    (x.user_id ≡ i) × IsWakeWord x.wake_word × InRange x.location_reminder_threshold_meters

abbrev pub IsSoundTable : Rows Settings → Type 0
IsSoundTable rows = (i : String) → IsSound i (rows i)

-- What reaches the service: GetOrCreate and Update, with the times at which they run.
pub data Call : Type 0 where
  read : (now : ℕ) (user_id : String) → Call
  write : (read_at now : ℕ) (user_id : String) (given : UpdateInput) → Call

abbrev pub after : (st : Store Settings) → Call → st.State → st.State
after st (read now u) s = (get_or_create st now u s).1
after st (write read_at now u given) s = (update st read_at now u given s).1

abbrev pub after_all : (st : Store Settings) → List Call → st.State → st.State
after_all st [] s = s
after_all st (call ∷ calls) s = after_all st calls (after st call s)

-- A change of a row that leaves it sound if it was.
abbrev Keeps : String → Option Settings → Option Settings → Type 0
Keeps i before after = IsSound i before → IsSound i after

Keeps-refl : (i : String) (o : Option Settings) → Keeps i o o
Keeps-refl i o h = h

InRange-ok : (meters : ℤ) → out_of_range meters ≡ false → InRange meters
InRange-ok (pos n) h = (ground arith, ground arith)
InRange-ok (negsuc n) h = absurd (ground arith)

chosen_threshold-InRange :
    (asked : Option ℤ) (old m : ℤ) → InRange old → chosen_threshold asked old ≡ ok m → InRange m
chosen_threshold-InRange none old m h e = subst InRange (cc) h
chosen_threshold-InRange (some meters) old m h e = elim (Bool-cases (out_of_range meters)) [
  | inl out ↦ absurd (let d = rw out at e in cc)
  | inr fits ↦ subst InRange (let d = rw fits at e in cc) (InRange-ok meters fits)
]

defaults-IsSound : (now : ℕ) (u : String) → IsSound u (some (defaults now u))
unfolding trim_space rune_count
defaults-IsSound now u =
    (refl, (ground (arith, eq_iff "Jarvis" ""), ground arith), (ground arith, ground arith))

module _ {st : Store Settings} (c : Contract key holds st) where
  created-IsSound :
      (now : ℕ) (u : String) (s : st.State)
      → IsSoundTable (c.rows s)
      → IsSoundTable (c.rows (st.create (defaults now u) s).1)
  created-IsSound now u s sound i =
      create-steps c Keeps Keeps-refl (defaults now u) s (λ h. defaults-IsSound now u) i (sound i)

  found-IsSound :
      (u : String) (s : st.State) (x : Settings)
      → IsSoundTable (c.rows s)
      → st.find_by_id u s ≡ ok x
      → IsSound u (some x)
  found-IsSound u s x sound r = subst (IsSound u) (find_by_id-ok c u s x r) (sound u)

  get_or_create-table :
      (now : ℕ) (u : String) (s : st.State)
      → IsSoundTable (c.rows s)
      → IsSoundTable (c.rows (get_or_create st now u s).1)
  unfolding get_or_create
  get_or_create-table now u s sound i = elim (Result-cases (st.find_by_id u s)) [
    | inl (x, r) ↦ rw (r, get_or_create) (sound i)
    | inr (failure, r) ↦ rw (r, get_or_create) (sound i)
    | inr (missing, r) ↦ elim (Result-cases (st.create (defaults now u) s).0) [
      | inl (done, made) ↦ rw (r, get_or_create, made) (created-IsSound now u s sound i)
      | inr (e, lost) ↦ rw (r, get_or_create, lost) (created-IsSound now u s sound i)
    ]
  ]

  get_or_create-IsSound :
      (now : ℕ) (u : String) (s : st.State) (x : Settings)
      → IsSoundTable (c.rows s)
      → (get_or_create st now u s).0 ≡ ok x
      → IsSound u (some x)
  unfolding get_or_create
  get_or_create-IsSound now u s x sound h = elim (Result-cases (st.find_by_id u s)) [
    | inl (y, r) ↦
        let same : y ≡ x = (let d = rw (r, get_or_create) at h in cc) in
        subst (λ z. IsSound u (some z)) same (found-IsSound u s y sound r)
    | inr (failure, r) ↦ absurd (let d = rw (r, get_or_create) at h in cc)
    | inr (missing, r) ↦ elim (Result-cases (st.create (defaults now u) s).0) [
      | inl (done, made) ↦
          let same : defaults now u ≡ x = (let d = rw (r, get_or_create, made) at h in cc) in
          subst (λ y. IsSound u (some y)) same (defaults-IsSound now u)
      | inr (e, lost) ↦
          let s' = (st.create (defaults now u) s).1 in
          elim (Result-cases (st.find_by_id u s')) [
            | inl (y, won) ↦
                let same : y ≡ x = (let d = rw (r, get_or_create, lost, won) at h in cc) in
                subst (λ z. IsSound u (some z)) same
                  (found-IsSound u s' y (created-IsSound now u s sound) won)
            | inr (e', gone) ↦ absurd (let d = rw (r, get_or_create, lost, gone) at h in cc)
          ]
    ]
  ]

  changed-IsSound :
      (now : ℕ) (u wake_word : String) (given : UpdateInput) (m : ℤ) (x : Settings)
      → IsWakeWord wake_word
      → IsSound u (some x)
      → chosen_threshold given.location_reminder_threshold_meters
          x.location_reminder_threshold_meters
        ≡ ok m
      → IsSound u (some (changed now wake_word given m x))
  changed-IsSound now u wake_word given m x word (mine, old, range) h = (
    mine,
    word,
    chosen_threshold-InRange given.location_reminder_threshold_meters
        x.location_reminder_threshold_meters m range h,
  )

  update_checked-table :
      (read_at now : ℕ) (u wake_word : String) (given : UpdateInput) (s : st.State)
      → IsWakeWord wake_word
      → IsSoundTable (c.rows s)
      → IsSoundTable (c.rows (update_checked st read_at now u wake_word given s).1)
  unfolding update_checked
  update_checked-table read_at now u wake_word given s word sound i =
      let s' = (get_or_create st read_at u s).1 in
      let table : IsSoundTable (c.rows s') = get_or_create-table read_at u s sound in
      elim (Result-cases (get_or_create st read_at u s).0) [
        | inr (e, r) ↦ rw (update_checked, r) (table i)
        | inl (x, r) ↦
            elim (Result-cases (
              chosen_threshold given.location_reminder_threshold_meters
                x.location_reminder_threshold_meters)) [
                  | inr (e, r') ↦ rw (update_checked, r, r') (table i)
                  | inl (m, r') ↦
                      let x' = changed now wake_word given m x in
                      let good =
                        changed-IsSound now u wake_word given m x word
                          (get_or_create-IsSound read_at u s x sound r) r' in
                      let steps = update-steps c Keeps Keeps-refl u x' s' (λ h. good) i (table i) in
                      elim (Result-cases (st.update u x' s').0) [
                        | inl (done, w) ↦ rw (update_checked, r, r', w) steps
                        | inr (e, w) ↦ rw (update_checked, r, r', w) steps
                      ]
                ]
      ]

  update-table :
      (read_at now : ℕ) (u : String) (given : UpdateInput) (s : st.State)
      → IsSoundTable (c.rows s)
      → IsSoundTable (c.rows (update st read_at now u given s).1)
  unfolding update
  update-table read_at now u given s sound i =
      let wake_word = trim_space given.wake_word in
      elim (Bool-cases (str_eq wake_word "")) [
        | inl empty ↦ rw (update, empty) (sound i)
        | inr full ↦ elim (Bool-cases (ltb 32 (rune_count wake_word))) [
          | inl long ↦ rw (update, full, long) (sound i)
          | inr short ↦
              let word : IsWakeWord wake_word = (
                ground (arith, eq_iff wake_word "", trim_space-twice given.wake_word),
                ground arith,
              ) in
              rw (update, full, short)
                (update_checked-table read_at now u wake_word given s word sound i)
        ]
      ]

  after-table :
      (call : Call) (s : st.State)
      → IsSoundTable (c.rows s)
      → IsSoundTable (c.rows (after st call s))
  after-table (read now u) s sound = get_or_create-table now u s sound
  after-table (write read_at now u given) s sound = update-table read_at now u given s sound

  -- From a sound table, whatever calls of GetOrCreate and Update run one after the other, over any
  -- store that keeps the contract and whatever fails in them, every row stands under its user, its
  -- wake word is not blank and has at most 32 characters, and its threshold is from 10 to 5000.
  pub after_all-IsSoundTable :
      (calls : List Call) (s : st.State)
      → IsSoundTable (c.rows s)
      → IsSoundTable (c.rows (after_all st calls s))
  after_all-IsSoundTable [] s sound = sound
  after_all-IsSoundTable (call ∷ calls) s sound =
      after_all-IsSoundTable calls (after st call s) (after-table call s sound)

  -- After any calls of GetOrCreate and Update from a sound table, over any store that keeps the
  -- contract, when GetOrCreate succeeds, stripWakeWord with the wake word that it returns does not
  -- panic on an utterance whose characters take as many bytes of UTF-8 as their lower case: it
  -- removes the wake word where it starts the utterance and ends at a word boundary, and nothing
  -- else.
  pub strip_wake_word-get_or_create :
      (calls : List Call) (s : st.State) (now : ℕ) (u : String) (x : Settings)
      (utterance source : String)
      → IsSoundTable (c.rows s)
      → (get_or_create st now u (after_all st calls s)).0 ≡ ok x
      → keeps_size (trim_space utterance) ≡ true
      → Stripped
          (trim_space utterance)
          (to_lower (trim_space x.wake_word))
          (strip_wake_word utterance x.wake_word source)
  unfolding IsWakeWord
  strip_wake_word-get_or_create calls s now u x utterance source sound h same =
      let table = after_all-IsSoundTable calls s sound in
      let (mine, word, range) = get_or_create-IsSound now u (after_all st calls s) x table h in
      strip_wake_word-Stripped utterance x.wake_word source word.0 same
