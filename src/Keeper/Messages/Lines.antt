-- ===== src/Keeper/Messages/Lines.antt =====
-- A message of clean fields is read into those fields.
use leverx.Prelude.{Bool, true, false, ◌&&◌, List, [], ◌∷◌, map, ◌≡◌, refl, arith}
use leverx.Prelude.Texts.{Text, text_eq_refl}
use leverx.Prelude.Texts.Split.{lacks, all_lack, split-join, cut_lem, lacks-append}
use leverx.Prelude.Maps.{set}
use leverx.Keeper.Messages.{Fields, parsed, newline, read_line, read_lines, parse_key_value_message}
use leverx.Keeper.Messages.Build.{line, message_of}

abbrev pub has_key : Text → Bool
has_key [] = false
has_key (c ∷ cs) = true

-- The key is not empty and has no `=`, and no line feed stands in the key or the value.
abbrev pub is_clean : Text × Text → Bool
is_clean (key, value) = has_key key && lacks b'=' key && lacks newline key && lacks newline value

abbrev pub all_clean : List (Text × Text) → Bool
all_clean [] = true
all_clean (field ∷ fields) = is_clean field && all_clean fields

-- The assignments that the lines amount to.
abbrev pub assign_all : List (Text × Text) → Fields → Fields
unfolding set
assign_all [] fields = fields
assign_all ((key, value) ∷ rest) fields = assign_all rest (set key value fields)

read_line_lem :
    (key value : Text) (fields : Fields)
    → is_clean (key, value) ≡ true
    → read_line (line (key, value)) fields ≡ set key value fields
unfolding read_line
read_line_lem [] value fields h = cc
read_line_lem (c ∷ cs) value fields h = ground (arith, cut_lem b'=' (c ∷ cs) value)

lacks-line :
    (key value : Text) → is_clean (key, value) ≡ true → lacks newline (line (key, value)) ≡ true
lacks-line key value h = lacks-append newline key (b'=' ∷ value) (ground arith) (ground arith)

all_lack-lines :
    (fields : List (Text × Text))
    → all_clean fields ≡ true
    → all_lack newline (map line fields) ≡ true
all_lack-lines [] h = refl
all_lack-lines ((key, value) ∷ rest) h = ground (arith, lacks-line key value, all_lack-lines rest)

read_lines_lem :
    (fields : List (Text × Text)) (m : Fields)
    → all_clean fields ≡ true
    → read_lines (map line fields) m ≡ assign_all fields m
unfolding read_lines
read_lines_lem [] m h = refl
read_lines_lem ((key, value) ∷ rest) m h =
    rw (read_lines, read_line_lem key value m (ground arith))
      (read_lines_lem rest (set key value m) (ground arith))

-- The fields of a message are the assignments of its lines.
pub parse-message_of :
    (first : Text) (fields : List (Text × Text))
    → lacks newline first ≡ true
    → all_clean fields ≡ true
    → parse_key_value_message (message_of first fields) first ≡ parsed (assign_all fields [])
unfolding parse_key_value_message message_of
parse-message_of first fields h clean =
    rw
      (
        split-join newline first (map line fields) (ground (arith, all_lack-lines fields)),
        text_eq_refl first,
        read_lines_lem fields [] clean,
      )
      refl
