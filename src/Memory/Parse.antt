-- ===== src/Memory/Parse.antt =====
-- src/memory/parse.rs: reading the answers of the memory commands.
use maestro_llamacpp.Common.{
  ℕ, ◌+◌, ◌*◌, ◌/◌, Bool, true, false, not, ◌||◌, Option, none, some, List, [], ◌∷◌, ◌==◌, ltb,
  if◌then◌else◌, keep,
}
use maestro_llamacpp.Common.Text.{
  codes, strip_prefix, is_whitespace, starts_with, ends_with, is_digit, rsplit_once_text,
  trim_start_by, trim_end_by, Text, trim, split_once, split_by, parse_unsigned,
}
use maestro_llamacpp.Common.Word.{add_u64}

pub record DeviceMemory : Type 0 where
  pub total_mib : ℕ
  pub used_mib : ℕ

abbrev pub kib_per_mib : ℕ
kib_per_mib = 1024

abbrev pub bytes_per_mib : ℕ
bytes_per_mib = 1024 * 1024

abbrev is_empty : Text → Bool
is_empty [] = true
is_empty (c ∷ s) = false

infixl 5 ◌>>=◌
abbrev ◌>>=◌ : {A B : Type 0} → Option A → (A → Option B) → Option B
none >>= f = none
some a >>= f = f a

-- `str::lines`: the text after the last line break counts if it is not empty, and a line loses the
-- carriage return before its line break.
drop_return : Text → Text
drop_return [] = []
drop_return (c ∷ []) = if c == 13 then [] else c ∷ []
drop_return (c ∷ d ∷ s) = c ∷ drop_return (d ∷ s)

lines_of : List Text → List Text
lines_of [] = []
lines_of (l ∷ []) = if is_empty l then [] else l ∷ []
lines_of (l ∷ m ∷ ls) = drop_return l ∷ lines_of (m ∷ ls)

unfoldable pub lines : Text → List Text
unfolding drop_return lines_of
lines text = lines_of (split_by (λ c. c == 10) text)

-- One line of the device query: the total and the use, around a comma.
device_line : Text → Option DeviceMemory
device_line line = do
  (left, right) ← split_once b',' line
  total ← parse_unsigned 64 (trim left)
  used ← parse_unsigned 64 (trim right)
  some (record { total_mib = total; used_mib = used })

device_lines : List Text → DeviceMemory → ℕ → Option DeviceMemory
device_lines [] acc devices = if ltb 0 devices then some acc else none
device_lines (l ∷ ls) acc devices = do
  d ← device_line l
  device_lines ls
      (record {
        total_mib = add_u64 acc.total_mib d.total_mib;
        used_mib = add_u64 acc.used_mib d.used_mib;
      })
      (devices + 1)

unfoldable pub device_of : Text → Option DeviceMemory
unfolding device_lines device_line
device_of text =
    device_lines (keep (λ line. not (is_empty (trim line))) (lines text))
      (record { total_mib = 0; used_mib = 0 }) 0

names_pid : ℕ → Text → Bool
names_pid pid left = elim (parse_unsigned 32 (trim left)) [ none ↦ false | some n ↦ n == pid ]

or_zero : Option ℕ → ℕ
or_zero none = 0
or_zero (some n) = n

-- The figures beside one process, summed; one that is no number makes the whole answer unknown.
apps_lines : List Text → ℕ → Option ℕ → Option ℕ
unfolding or_zero names_pid
apps_lines [] pid used = used
apps_lines (l ∷ ls) pid used = elim (split_once b',' l) [
  | none ↦ apps_lines ls pid used
  | some (left, right) ↦ elim (names_pid pid left) [
    | false ↦ apps_lines ls pid used
    | true ↦ parse_unsigned 64 (trim right) >>= λ mib.
        apps_lines ls pid (some (add_u64 (or_zero used) mib))
  ]
]

unfoldable pub compute_apps : Text → ℕ → Option ℕ
unfolding apps_lines
compute_apps text pid = apps_lines (lines text) pid none

unfoldable pub scaled : Text → ℕ → Option ℕ
scaled text per_mib = do count ← parse_unsigned 64 (trim text); some (count / per_mib)

-- The first word of a line that begins so, among the lines.
first_after : Text → List Text → Option Text
first_after prefix [] = none
first_after prefix (l ∷ ls) =
    let rest = first_after prefix ls in
    elim (strip_prefix l prefix) [ none ↦ rest | some after ↦ some after ]

first_word : List Text → Option Text
first_word [] = none
first_word (w ∷ ws) = if is_empty w then first_word ws else some w

unfoldable pub meminfo_total : Text → Option ℕ
unfolding first_after first_word scaled lines
meminfo_total text = first_after (codes "MemTotal:") (lines text) >>= λ line.
    first_word (split_by is_whitespace line) >>= λ word. scaled word kib_per_mib

first_quoted : List Text → Option Text
first_quoted [] = none
first_quoted (l ∷ ls) = if starts_with l (b'"' ∷ []) then some l else first_quoted ls

abbrev last_field : Text → Text
last_field line = elim (rsplit_once_text (b'"' ∷ b',' ∷ b'"' ∷ []) line) [
  | none ↦ line
  | some (before, field) ↦ field
]

abbrev is_quote : ℕ → Bool
is_quote c = c == b'"'

-- The working set of a field that carries its unit.
field_mib : Text → Option ℕ
field_mib field =
    let digits = keep is_digit field in
    if is_empty digits || not (ends_with field (codes "K"))
    then none
    else (parse_unsigned 64 digits >>= λ kib. some (kib / kib_per_mib))

unfoldable pub tasklist_rss : Text → Option ℕ
unfolding first_quoted field_mib
tasklist_rss text = first_quoted (lines text) >>= λ line.
    field_mib (trim_end_by is_quote (trim_start_by is_quote (trim (last_field line))))
