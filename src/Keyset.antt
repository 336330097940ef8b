-- ===== src/Keyset.antt =====
-- ting_ting/keyset.py: opaque pagination cursors. Text is the list of its code points. base64,
-- datetimes as text, and numbers as text are Python's, so they are parameters.
pub mod RoundTrip
pub mod Pages
pub mod Sorted
pub mod Walk
pub mod Listing
use biexce_social_network.Prelude.{if◌then◌else◌, some, ◌∷◌, [], ◌++◌, none, ℕ, Option, List, ◌==◌}

abbrev pub Text : Type 0
Text = List ℕ

-- The library calls. `none` is an exception. `int` reads a negative number as 0, below every id.
pub record Codec : Type 0 where
  pub urlsafe_b64encode : Text → Text
  pub urlsafe_b64decode : Text → Option Text
  pub isoformat : ℕ → Text
  pub fromisoformat : Text → Option ℕ
  pub str : ℕ → Text
  pub int : Text → Option ℕ

abbrev pub bar : ℕ
bar = b'|'

-- `raw.split("|", 1)` unpacked into two: the text before and after the first bar.
unfoldable pub split_once : Text → Option (Text × Text)
split_once [] = none
split_once (c ∷ cs) =
    let rest = split_once cs in
    if c == bar then some ([], cs) else elim rest [ none ↦ none | some (a, b) ↦ some (c ∷ a, b) ]

-- `raw.rsplit("|", 1)` unpacked into two: the text before and after the last bar.
unfoldable pub rsplit_once : Text → Option (Text × Text)
rsplit_once [] = none
rsplit_once (c ∷ cs) = elim (rsplit_once cs) [
  | some (a, b) ↦ some (c ∷ a, b)
  | none ↦ if c == bar then some ([], cs) else none
]

module _ (codec : Codec) where
  open codec use {urlsafe_b64encode, urlsafe_b64decode, isoformat, fromisoformat, str, int}

  -- A row's `created_at` and `id`.
  unfoldable pub encode_cursor : ℕ → ℕ → Text
  encode_cursor created_at id = urlsafe_b64encode (isoformat created_at ++ bar ∷ str id)

  abbrev both : {A : Type 0} → Option A → Option ℕ → Option (A × ℕ)
  both (some a) (some b) = some (a, b)
  both _ _ = none

  -- `none` is the `ValueError`.
  unfoldable pub decode_cursor : Text → Option (ℕ × ℕ)
  decode_cursor cursor = elim (urlsafe_b64decode cursor) [
    | none ↦ none
    | some raw ↦ elim (split_once raw) [
      | none ↦ none
      | some (ts, row_id) ↦ both (fromisoformat ts) (int row_id)
    ]
  ]

  unfoldable pub encode_pair : Text → ℕ → Text
  encode_pair key row_id = urlsafe_b64encode (key ++ bar ∷ str row_id)

  unfoldable pub decode_pair : Text → Option (Text × ℕ)
  decode_pair cursor = elim (urlsafe_b64decode cursor) [
    | none ↦ none
    | some raw ↦ elim (rsplit_once raw) [
      | none ↦ none
      | some (key, row_id) ↦ both (some key) (int row_id)
    ]
  ]
