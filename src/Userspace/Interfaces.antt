-- ===== src/Userspace/Interfaces.antt =====
-- natto64/src/lib.rs: the index of a network interface, read from `/sys/class/net`.
pub mod Laws
use Prim.Native.Char.{code}
use Prim.Native.String.{String}
use natto.Common.{
  ℕ, ◌+◌, ◌-◌, ◌*◌, ◌⊎◌, inl, inr, List, [], ◌∷◌, ◌++◌, Bool, true, false, not, ◌&&◌, ◌||◌, ltb,
  leb, ◌==◌, if◌then◌else◌,
}
use natto.Userspace.System.{System, Text}
use natto.Userspace.Error.{
  ParseIntError, empty, invalid_digit, pos_overflow, Result, ok, err, invalid_interface_name,
  read_interface_index, parse_interface_index,
}

-- The code points of a literal.
abbrev pub codes : String → Text
codes String.[] = []
codes (String.◌∷◌ c s) = code c ∷ codes s

unfoldable pub contains : Text → ℕ → Bool
contains [] c = false
contains (x ∷ xs) c = x == c || contains xs c

-- `Path::join` to a path that does not end in `/`: an absolute path replaces it.
unfoldable pub join : Text → Text → Text
join base [] = base ++ b'/' ∷ []
join base (c ∷ component) = if c == b'/' then c ∷ component else base ++ b'/' ∷ c ∷ component

-- `char::is_whitespace`.
unfoldable pub is_whitespace : ℕ → Bool
is_whitespace c =
    leb 9 c && leb c 13
    || c == 0x20
    || c == 0x85
    || c == 0xa0
    || c == 0x1680
    || leb 0x2000 c && leb c 0x200a
    || c == 0x2028
    || c == 0x2029
    || c == 0x202f
    || c == 0x205f
    || c == 0x3000

unfoldable pub trim_start : Text → Text
trim_start [] = []
trim_start (c ∷ cs) = if is_whitespace c then trim_start cs else c ∷ cs

-- What is left of a text whose end is trimmed already, behind one more character.
abbrev keep : ℕ → Text → Text
keep c [] = if is_whitespace c then [] else c ∷ []
keep c (d ∷ ds) = c ∷ d ∷ ds

unfoldable pub trim_end : Text → Text
trim_end [] = []
trim_end (c ∷ cs) = keep c (trim_end cs)

unfoldable pub trim : Text → Text
trim s = trim_start (trim_end s)

abbrev u32_max : ℕ
u32_max = 4_294_967_295

-- The digits of a number in `u32::from_str`, from the value read so far.
unfoldable pub parse_digits : ℕ → Text → ParseIntError ⊎ ℕ
parse_digits value [] = inr value
parse_digits value (c ∷ cs) =
    let rest = parse_digits (value * 10 + (c - b'0')) cs in
    if not (leb b'0' c && leb c b'9')
    then inl invalid_digit
    else if ltb u32_max (value * 10 + (c - b'0'))
    then inl pos_overflow
    else rest

-- `str::parse::<u32>`: a sign `+` may stand in front of digits.
unfoldable pub parse_u32 : Text → ParseIntError ⊎ ℕ
parse_u32 [] = inl empty
parse_u32 (c ∷ []) = parse_digits 0 (c ∷ [])
parse_u32 (c ∷ d ∷ cs) = if c == b'+' then parse_digits 0 (d ∷ cs) else parse_digits 0 (c ∷ d ∷ cs)

abbrev pub is_empty : Text → Bool
is_empty [] = true
is_empty (c ∷ cs) = false

abbrev pub is_dot : Text → Bool
is_dot (c ∷ []) = c == b'.'
is_dot _ = false

abbrev pub is_dot_dot : Text → Bool
is_dot_dot (c ∷ d ∷ []) = c == b'.' && d == b'.'
is_dot_dot _ = false

abbrev pub index_path : Text → Text
index_path interface = join (join (codes "/sys/class/net") interface) (codes "ifindex")

abbrev pub is_invalid : Text → Bool
is_invalid interface =
    is_empty interface || contains interface b'/' || is_dot interface || is_dot_dot interface

unfoldable pub interface_index : (s : System) → s.Os → Text → Result s ℕ
interface_index s os interface =
    if is_invalid interface
    then err (invalid_interface_name interface)
    else elim (s.read_to_string os (index_path interface)) [
      | inl source ↦ err (read_interface_index interface source)
      | inr value ↦ elim (parse_u32 (trim value)) [
        | inl source ↦ err (parse_interface_index interface source)
        | inr index ↦ ok index
      ]
    ]
