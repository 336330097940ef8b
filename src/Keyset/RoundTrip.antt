-- ===== src/Keyset/RoundTrip.antt =====
-- What is decoded from a cursor is what was encoded.
use biexce_social_network.Prelude.{refl, arith, none, some, ◌≢◌, ◌++◌, ◌∷◌, [], ℕ, ◌≡◌}
use biexce_social_network.Keyset.{
  none, some, ℕ, ◌++◌, ◌∷◌, Text, Codec, bar, split_once, rsplit_once, encode_cursor, decode_cursor,
  encode_pair, decode_pair,
}

-- The text holds no bar.
abbrev pub NoBar : Text → Type 0
NoBar [] = Unit
NoBar (c ∷ cs) = (c ≢ bar) × NoBar cs

-- Documented behaviour of the library calls: each reads what the other wrote, and neither an ISO
-- datetime nor a decimal number contains a bar.
pub record IsLawful (codec : Codec) : Type 0 where
  pub decode-encode : (t : Text) → codec.urlsafe_b64decode (codec.urlsafe_b64encode t) ≡ some t
  pub encode-ne-nil : (t : Text) → t ≢ [] → codec.urlsafe_b64encode t ≢ []
  pub fromisoformat-isoformat : (n : ℕ) → codec.fromisoformat (codec.isoformat n) ≡ some n
  pub int-str : (n : ℕ) → codec.int (codec.str n) ≡ some n
  pub isoformat-NoBar : (n : ℕ) → NoBar (codec.isoformat n)
  pub str-NoBar : (n : ℕ) → NoBar (codec.str n)

-- The first bar is the one after a text that holds none.
pub split_once-append : (a b : Text) → NoBar a → split_once (a ++ bar ∷ b) ≡ some (a, b)
unfolding split_once
split_once-append [] b h = refl
split_once-append (c ∷ a) b h = ground (arith, split_once-append a b)

rsplit_once-none : (b : Text) → NoBar b → rsplit_once b ≡ none
unfolding rsplit_once
rsplit_once-none [] h = refl
rsplit_once-none (c ∷ b) h = ground (arith, rsplit_once-none b)

-- The last bar is the one before a text that holds none, whatever stands before it.
pub rsplit_once-append : (a b : Text) → NoBar b → rsplit_once (a ++ bar ∷ b) ≡ some (a, b)
unfolding rsplit_once
rsplit_once-append [] b h = ground (arith, rsplit_once-none b)
rsplit_once-append (c ∷ a) b h = ground (arith, rsplit_once-append a b)

append-ne-nil : (a b : Text) → a ++ bar ∷ b ≢ []
append-ne-nil [] b h = cc
append-ne-nil (c ∷ a) b h = cc

module _ (codec : Codec) (lawful : IsLawful codec) where
  -- Where the library calls obey their documented laws, a row's cursor decodes to the row's creation
  -- time and id.
  pub decode_cursor-encode_cursor :
      (created_at id : ℕ)
      → decode_cursor codec (encode_cursor codec created_at id) ≡ some (created_at, id)
  unfolding decode_cursor encode_cursor
  decode_cursor-encode_cursor created_at id = ground (
    arith,
    lawful.decode-encode (codec.isoformat created_at ++ bar ∷ codec.str id),
    split_once-append (codec.isoformat created_at) (codec.str id)
        (lawful.isoformat-NoBar created_at),
    lawful.fromisoformat-isoformat created_at,
    lawful.int-str id,
  )

  -- Where the library calls obey their documented laws, a key with its row id decodes to both, also
  -- where the key holds bars.
  pub decode_pair-encode_pair :
      (key : Text) (row_id : ℕ)
      → decode_pair codec (encode_pair codec key row_id) ≡ some (key, row_id)
  unfolding decode_pair encode_pair
  decode_pair-encode_pair key row_id = ground (
    arith,
    lawful.decode-encode (key ++ bar ∷ codec.str row_id),
    rsplit_once-append key (codec.str row_id) (lawful.str-NoBar row_id),
    lawful.int-str row_id,
  )

  -- A row's cursor is not the empty text, which would stand for no cursor.
  pub encode_cursor-ne-nil : (created_at id : ℕ) → encode_cursor codec created_at id ≢ []
  unfolding encode_cursor
  encode_cursor-ne-nil created_at id =
      lawful.encode-ne-nil _ (append-ne-nil (codec.isoformat created_at) (codec.str id))
