-- ===== src/Json/Escape.antt =====
-- The escapes against a reader of JSON strings (RFC 8259, section 7).
use perfect_build_radar_touc.Base.{
  ℕ, zero, suc, ◌+◌, ◌-◌, ◌*◌, ◌/◌, ◌%◌, ◌≤◌, ◌<◌, ◌≡◌, refl, sym, inl, inr, ap, ◌∙◌, Bool, true,
  false, ◌&&◌, ◌||◌, [], ◌∷◌, ◌++◌, Option, none, some, arith, Bytes, All, All-append, ltb, leb,
  ◌==◌, if◌then◌else◌,
}
use mathlib.Core.Bool.{true≢false}
use perfect_build_radar_touc.Json.Output.{Stream}
use perfect_build_radar_touc.Json.Renders.{json_write_escaped-Renders}
use perfect_build_radar_touc.Json.{escape_char, hex_digit, json_write_escaped}
use perfect_build_radar_touc.Json.Text.{escaped, quoted}
use mathlib.Core.List.{append_assoc}

-- Inside a string: between characters, behind a backslash, or with `k` hex digits to come.
pub data Mode : Type 0 where
  plain : Mode
  slash : Mode
  hex : ℕ → ℕ → Mode

unfoldable pub is_hex : ℕ → Bool
is_hex c = leb 48 c && leb c 57 || leb 97 c && leb c 102 || leb 65 c && leb c 70

unfoldable pub hex_value : ℕ → ℕ
hex_value c = if leb c 57 then c - 48 else if leb c 70 then c - 55 else c - 87

-- The character that a letter behind a backslash stands for.
unfoldable pub short_escape : ℕ → Option ℕ
short_escape c =
    if c == 34 || c == 92 || c == 47
    then some c
    else if c == 98
    then some 8
    else if c == 102
    then some 12
    else if c == 110
    then some 10
    else if c == 114
    then some 13
    else if c == 116
    then some 9
    else none

unfoldable pub push : ℕ → Option (Bytes × Bytes) → Option (Bytes × Bytes)
push c none = none
push c (some r) = some (c ∷ r.0, r.1)

unfoldable pub and_push : Option ℕ → Option (Bytes × Bytes) → Option (Bytes × Bytes)
and_push none r = none
and_push (some c) r = push c r

-- The string up to its closing quote, and what follows it.
unfoldable pub read_json : Mode → Bytes → Option (Bytes × Bytes)
read_json mode [] = none
read_json plain (c ∷ s) =
    let more = read_json plain s in
    let escape = read_json slash s in
    if c == 34
    then some ([], s)
    else if c == 92
    then escape
    else if ltb c 32
    then none
    else push c more
read_json slash (c ∷ s) =
    let more = read_json plain s in
    let digits = read_json (hex 4 0) s in
    if c == 117 then digits else and_push (short_escape c) more
read_json (hex zero acc) (c ∷ s) = none
read_json (hex (suc k) acc) (c ∷ s) =
    let more = read_json plain s in
    let digits = read_json (hex k (acc * 16 + hex_value c)) s in
    if is_hex c then (if k == 0 then push (acc * 16 + hex_value c) more else digits) else none

read_json-digits :
    (c : ℕ) (rest : Bytes)
    → c < 32
    → read_json plain (92 ∷ 117 ∷ 48 ∷ 48 ∷ hex_digit (c / 16) ∷ hex_digit (c % 16) ∷ rest)
      ≡ push c (read_json plain rest)
unfolding read_json is_hex hex_value short_escape and_push
read_json-digits c rest h = ground arith

read_json-escape_char :
    (c : ℕ) (rest : Bytes) → read_json plain (escape_char c ++ rest) ≡ push c (read_json plain rest)
unfolding escape_char read_json short_escape and_push
read_json-escape_char c rest = ground (arith, read_json-digits c rest)

read_json-escaped : (s rest : Bytes) → read_json plain (escaped s ++ 34 ∷ rest) ≡ some (s, rest)
unfolding escaped push read_json
read_json-escaped [] rest = read_json-quote rest
  where
    read_json-quote : (rest : Bytes) → read_json plain (34 ∷ rest) ≡ some ([], rest)
    read_json-quote rest = refl
read_json-escaped (c ∷ s) rest =
    ap (read_json plain) (append_assoc (escape_char c) (escaped s) (34 ∷ rest))
    ∙ read_json-escape_char c (escaped s ++ 34 ∷ rest)
    ∙ ap (push c) (read_json-escaped s rest)

-- A JSON string with its quotes, and what follows it.
unfoldable pub read_quoted : Bytes → Option (Bytes × Bytes)
read_quoted [] = none
read_quoted (c ∷ s) = if c == 34 then read_json plain s else none

quoted-read : (s rest : Bytes) → read_quoted (quoted s ++ rest) ≡ some (s, rest)
unfolding read_quoted quoted
quoted-read s rest =
    ap (read_json plain) (append_assoc (escaped s) (34 ∷ []) rest) ∙ read_json-escaped s rest

-- A character that may stand in a line of text.
abbrev pub IsPrintable : ℕ → Type 0
IsPrintable c = 32 ≤ c

if-All :
    (b : Bool) (xs ys : Bytes)
    → (b ≡ true → All IsPrintable xs)
    → (b ≡ false → All IsPrintable ys)
    → All IsPrintable (if b then xs else ys)
if-All true xs ys hx hy = hx refl
if-All false xs ys hx hy = hy refl

hex_digit-IsPrintable : (d : ℕ) → IsPrintable (hex_digit d)
hex_digit-IsPrintable d = ground arith

escape_char-All : (c : ℕ) → All IsPrintable (escape_char c)
unfolding escape_char
escape_char-All c =
    if-All (c == 34) _ _ (λ _. (omega arith, (omega arith, tt)))
      (λ _.
        if-All (c == 92) _ _ (λ _. (omega arith, (omega arith, tt)))
          (λ _.
            if-All (c == 8) _ _ (λ _. (omega arith, (omega arith, tt)))
              (λ _.
                if-All (c == 12) _ _ (λ _. (omega arith, (omega arith, tt)))
                  (λ _.
                    if-All (c == 10) _ _ (λ _. (omega arith, (omega arith, tt)))
                      (λ _.
                        if-All (c == 13) _ _ (λ _. (omega arith, (omega arith, tt)))
                          (λ _.
                            if-All (c == 9) _ _ (λ _. (omega arith, (omega arith, tt)))
                              (λ _.
                                if-All (ltb c 32) _ _
                                  (λ h. (
                                    omega arith,
                                    (
                                      omega arith,
                                      (
                                        omega arith,
                                        (
                                          omega arith,
                                          (
                                            hex_digit-IsPrintable (c / 16),
                                            (hex_digit-IsPrintable (c % 16), tt),
                                          ),
                                        ),
                                      ),
                                    ),
                                  ))
                                  (λ h. (ground arith, tt)))))))))

escaped-All : (s : Bytes) → All IsPrintable (escaped s)
unfolding escaped
escaped-All [] = tt
escaped-All (c ∷ s) =
    All-append IsPrintable (escape_char c) (escaped s) (escape_char-All c) (escaped-All s)

quoted-All : (s : Bytes) → All IsPrintable (quoted s)
unfolding quoted
quoted-All s =
    (omega arith, All-append IsPrintable (escaped s) (34 ∷ []) (escaped-All s) (omega arith, tt))

-- Without an error, `json_write_escaped` adds a JSON string without control characters, and a
-- reader of JSON strings takes it back to the text that was written, whatever follows it.
pub json_write_escaped-read :
    (s : Bytes) (fp : Stream)
    → (json_write_escaped s fp).1.error ≡ false
    → (t : Bytes) × ((json_write_escaped s fp).1.text ≡ fp.text ++ t)
      × All IsPrintable t
      × ((rest : Bytes) → read_quoted (t ++ rest) ≡ some (s, rest))
json_write_escaped-read s fp h = elim ((json_write_escaped-Renders s).runs fp) [
  | inl bad ↦ absurd (true≢false (sym bad ∙ h))
  | inr good ↦ (quoted s, good.1, quoted-All s, quoted-read s)
]
