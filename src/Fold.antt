-- ===== src/Fold.antt =====
-- internal/model/fold.go: long lines of a card are folded. The loops are recursions on fuel: one more
-- than the length of the line is enough, since every round takes at least one byte from it.
pub mod Lossless
mod Examples
use carrel.Prelude.{
  ℕ, zero, suc, ◌+◌, ◌-◌, Bool, true, false, ◌&&◌, ◌||◌, not, List, [], ◌∷◌, ◌++◌, if◌then◌else◌,
  ltb, leb, nat_eq, length, take, drop,
}
use carrel.Random.{Bytes}

abbrev pub fold_limit : ℕ
fold_limit = 75

abbrev pub crlf : Bytes
crlf = 13 ∷ 10 ∷ []

-- utf8.RuneStart
abbrev pub is_rune_start : ℕ → Bool
is_rune_start b = not (leb 0x80 b && ltb b 0xc0)

-- line[i], of an index within the line
abbrev pub byte_at : ℕ → Bytes → ℕ
byte_at i [] = 0
byte_at zero (b ∷ bs) = b
byte_at (suc i) (b ∷ bs) = byte_at i bs

abbrev pub back_from : ℕ → Bytes → ℕ
back_from zero line = 0
back_from (suc cut) line =
    let lower = back_from cut line in
    if is_rune_start (byte_at (suc cut) line) then suc cut else lower

unfoldable pub rune_boundary : Bytes → ℕ → ℕ
rune_boundary line limit = if leb (length line) limit then length line else back_from limit line

-- writeFolded: what is written of a line.
unfoldable pub write_folded : ℕ → ℕ → Bytes → Bytes
unfolding rune_boundary
write_folded zero limit line = line
write_folded (suc fuel) limit line =
    let cut = rune_boundary line limit in
    let rest = write_folded fuel (fold_limit - 1) (drop cut line) in
    if leb (length line) limit || nat_eq cut 0 then line else take cut line ++ (crlf ++ 32 ∷ rest)

-- bytes.Split at a carriage return and a newline
abbrev pub longer : ℕ → List Bytes → List Bytes
longer b [] = (b ∷ []) ∷ []
longer b (line ∷ lines) = (b ∷ line) ∷ lines

abbrev pub split_crlf : Bytes → List Bytes
split_crlf [] = [] ∷ []
split_crlf (b ∷ []) = (b ∷ []) ∷ []
split_crlf (b ∷ c ∷ bs) =
    let ended = split_crlf bs in
    let same = split_crlf (c ∷ bs) in
    if nat_eq b 13 && nat_eq c 10 then [] ∷ ended else longer b same

abbrev pub fold_each : List Bytes → Bytes
fold_each [] = []
fold_each ([] ∷ []) = []
fold_each (line ∷ lines) =
    write_folded (length line + 1) fold_limit line ++ (crlf ++ fold_each lines)

unfoldable pub fold_lines : Bytes → Bytes
unfolding write_folded
fold_lines src = fold_each (split_crlf src)
