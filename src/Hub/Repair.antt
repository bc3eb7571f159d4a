-- ===== src/Hub/Repair.antt =====
-- `JSONAutoRepair` of internal/hub/watchdog.go. A text is the list of its code points.
pub mod Document
pub mod Scanned
pub mod Completed
use Prim.Native.Char.{code}
use Prim.Native.String as Text
use oh_my_code_agent.Prelude.{
  ℕ, String, Bool, true, false, List, [], ◌∷◌, ◌++◌, ◌+◌, ◌||◌, ◌&&◌, reverse, length,
  if◌then◌else◌, ltb, leb, ◌==◌,
}

unfoldable pub codes : String → List ℕ
codes Text.[] = []
codes (Text.◌∷◌ c s) = code c ∷ codes s

-- unicode.IsSpace
unfoldable pub is_space : ℕ → Bool
is_space c =
    (leb 9 c && leb c 13)
    || (c == 32)
    || (c == 133)
    || (c == 160)
    || (c == 5760)
    || (leb 8192 c && leb c 8202)
    || (c == 8232)
    || (c == 8233)
    || (c == 8239)
    || (c == 8287)
    || (c == 12288)

unfoldable pub trim_left : List ℕ → List ℕ
unfolding is_space
trim_left [] = []
trim_left (c ∷ cs) = let rest = trim_left cs in if is_space c then rest else c ∷ cs

-- strings.TrimSpace
unfoldable pub trim_space : List ℕ → List ℕ
unfolding trim_left
trim_space cs = reverse (trim_left (reverse (trim_left cs)))

-- `len` of a string: the bytes of its code points in UTF-8
unfoldable pub byte_length : List ℕ → ℕ
byte_length [] = 0
byte_length (c ∷ cs) =
    (if ltb c 128 then 1 else (if ltb c 2048 then 2 else (if ltb c 65536 then 3 else 4)))
    + byte_length cs

abbrev pub max_repair_input_len : ℕ
max_repair_input_len = 10485760

abbrev pub max_stack_depth : ℕ
max_stack_depth = 512

-- The variables of the loop; the stack has its top first.
pub record Scan : Type 0 where
  pub stack : List ℕ
  pub in_string : Bool
  pub escaped : Bool
  pub exceeded : Bool

abbrev pub start : Scan
start = record { stack = []; in_string = false; escaped = false; exceeded = false }

abbrev pub outside : List ℕ → Scan
outside stack = record { stack = stack; in_string = false; escaped = false; exceeded = false }

abbrev pub inside : List ℕ → Bool → Scan
inside stack escaped = record {
  stack = stack;
  in_string = true;
  escaped = escaped;
  exceeded = false;
}

abbrev pub too_deep : List ℕ → Scan
too_deep stack = record { stack = stack; in_string = false; escaped = false; exceeded = true }

unfoldable pub push : ℕ → List ℕ → Scan
push closer stack =
    if leb max_stack_depth (length stack) then too_deep stack else outside (closer ∷ stack)

unfoldable pub pop : ℕ → List ℕ → Scan
pop r [] = outside []
pop r (top ∷ stack) = if top == r then outside stack else outside (top ∷ stack)

-- the body of the loop in a string
unfoldable pub string_step : ℕ → List ℕ → Bool → Scan
string_step r stack true = inside stack false
string_step r stack false =
    if r == b'\\'
    then inside stack true
    else (if r == b'"' then outside stack else inside stack false)

-- the body of the loop outside strings
unfoldable pub plain_step : ℕ → List ℕ → Scan
unfolding push pop
plain_step r stack =
    if r == b'"'
    then inside stack false
    else (if r == b'{'
        then push b'}' stack
        else (if r == b'['
            then push b']' stack
            else (if (r == b'}') || (r == b']') then pop r stack else outside stack)))

unfoldable pub scan_step : ℕ → Scan → Scan
unfolding string_step plain_step
scan_step r st = if st.in_string then string_step r st.stack st.escaped else plain_step r st.stack

unfoldable pub scan_all : List ℕ → Scan → Scan
unfolding scan_step
scan_all [] st = st
scan_all (r ∷ rs) st = if st.exceeded then st else scan_all rs (scan_step r st)

abbrev pub drop_last : List ℕ → List ℕ
drop_last [] = []
drop_last (c ∷ []) = []
drop_last (c ∷ d ∷ cs) = c ∷ drop_last (d ∷ cs)

abbrev pub meta : List ℕ
unfolding codes
meta = codes ",\"_meta\":{\"truncated\":true,\"reason\":\"SLA_150S_EXCEEDED\"}"

-- the closers from the top of the stack, with the metadata before the one of a root object
unfoldable pub closers : List ℕ → List ℕ
closers [] = []
closers (c ∷ []) = if c == b'}' then meta ++ (c ∷ []) else c ∷ []
closers (c ∷ d ∷ stack) = c ∷ closers (d ∷ stack)

-- The part after the loop. A scan that ends on an escape has the backslash as its last character.
unfoldable pub close_scan : List ℕ → Scan → List ℕ
unfolding closers
close_scan trimmed st =
    let body = if st.escaped then drop_last trimmed else trimmed in
    let closed = if st.in_string then body ++ (b'"' ∷ []) else body in closed ++ closers st.stack

unfoldable pub is_structured : List ℕ → Bool
is_structured [] = false
is_structured (c ∷ cs) = (c == b'{') || (c == b'[')

abbrev is_nil : List ℕ → Bool
is_nil [] = true
is_nil (_ ∷ _) = false

abbrev pub nesting_error : List ℕ
unfolding codes
nesting_error = codes "{\"_meta\":{\"truncated\":true,\"error\":\"MAX_NESTING_DEPTH_EXCEEDED\"}}"

-- `JSONAutoRepair`
unfoldable pub json_auto_repair : List ℕ → List ℕ
unfolding codes trim_space byte_length is_structured scan_all close_scan
json_auto_repair s =
    let trimmed = trim_space s in
    let st = scan_all trimmed start in
    if is_nil trimmed
    then codes "{}"
    else (if ltb max_repair_input_len (byte_length s)
        then s ++ codes "\n... [Truncated: exceeded 10MB safety limit]"
        else (if is_structured trimmed
            then (if st.exceeded then nesting_error else close_scan trimmed st)
            else s ++ codes "\n... [Truncated at 150s SLA]"))
