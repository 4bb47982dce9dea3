-- ===== src/Node/Content.antt =====
-- internal/core/node/file.go, dir.go, symlink.go, object.go, mount.go: the payloads of a node and
-- their JSON. A stored content is the document that `json.Marshal` wrote; its length in bytes is
-- counted as encoding/json prints it, and reading it as another type is what `json.Unmarshal`
-- does: unknown fields are dropped, and a string where an object is wanted is an error.
use mdrive.Prelude.{ℕ, ◌+◌, ◌||◌, List, [], ◌∷◌, Text, ltb, ◌==◌, if◌then◌else◌}
use mdrive.Errorx.{Kind}
use mdrive.Result.{Result, ok, err}
use mdrive.Node.Kinds.{NodeKind}

-- DirEntry
pub record DirEntry : Type 0 where
  pub inode_id : ℕ
  pub name : Text
  pub kind : NodeKind

-- ObjectContent
pub record ObjectContent : Type 0 where
  pub bucket : Text
  pub key : Text
  pub mime : Text
  pub checksum : Text

-- Content: FileContent is a bare JSON string, the others are objects. A nil and an empty list of
-- entries read back alike.
pub data Content : Type 0 where
  file_json : Text → Content
  dir_json : List DirEntry → Content
  symlink_json : Text → Content
  object_json : ObjectContent → Content
  mount_json : Text → Content

-- The bytes of a code point in UTF-8.
abbrev utf8_len : ℕ → ℕ
utf8_len c = if ltb c 0x80 then 1 else if ltb c 0x800 then 2 else if ltb c 0x10000 then 3 else 4

-- `len(s)` of a Go string.
unfoldable pub byte_len : Text → ℕ
byte_len [] = 0
byte_len (c ∷ s) = utf8_len c + byte_len s

-- The bytes of a code point inside a JSON string: quote, backslash, \b \t \n \f \r take two, other
-- control characters, < > & and U+2028, U+2029 take six.
abbrev json_char_len : ℕ → ℕ
json_char_len c =
    if c == 0x22 || c == 0x5c || c == 0x08 || c == 0x09 || c == 0x0a || c == 0x0c || c == 0x0d
    then 2
    else if ltb c 0x20 || c == 0x3c || c == 0x3e || c == 0x26 || c == 0x2028 || c == 0x2029
    then 6
    else utf8_len c

json_chars_len : Text → ℕ
json_chars_len [] = 0
json_chars_len (c ∷ s) = json_char_len c + json_chars_len s

-- A quoted string.
unfoldable pub json_string_len : Text → ℕ
unfolding json_chars_len
json_string_len s = 2 + json_chars_len s

-- {"ino":"<36>","name":<name>,"kind":<digit>}
unfoldable pub entry_len : DirEntry → ℕ
unfolding json_string_len
entry_len e = 63 + json_string_len e.name

-- The entries, with a comma before each but the first.
unfoldable pub rest_len : List DirEntry → ℕ
rest_len [] = 0
rest_len (e ∷ es) = 1 + (entry_len e + rest_len es)

-- {"items":[<entries>]}
unfoldable pub dir_len : List DirEntry → ℕ
unfolding entry_len rest_len
dir_len [] = 12
dir_len (e ∷ es) = 12 + (entry_len e + rest_len es)

-- `"sum"` is left out when it is empty.
abbrev checksum_len : Text → ℕ
checksum_len [] = 0
checksum_len (c ∷ s) = 7 + json_string_len (c ∷ s)

-- `len(data)` of what `json.Marshal` returns, for each payload.
unfoldable pub content_len : Content → ℕ
unfolding json_string_len dir_len
content_len (file_json raw) = json_string_len raw
content_len (dir_json es) = dir_len es
content_len (symlink_json target) = 11 + json_string_len target
content_len (object_json o) =
    26
    + (json_string_len o.bucket
        + (json_string_len o.key + (json_string_len o.mime + checksum_len o.checksum)))
content_len (mount_json src) = 8 + json_string_len src

abbrev no_object : ObjectContent
no_object = record { bucket = []; key = []; mime = []; checksum = [] }

-- `json.Unmarshal(content, &fc)` with the method of FileContent.
abbrev pub unmarshal_file : Content → Result Text
unmarshal_file (file_json raw) = ok raw
unmarshal_file _ = err Kind.unknown

-- `json.Unmarshal(content, &dc)`
abbrev pub unmarshal_dir : Content → Result (List DirEntry)
unmarshal_dir (file_json raw) = err Kind.unknown
unmarshal_dir (dir_json es) = ok es
unmarshal_dir _ = ok []

-- `json.Unmarshal(content, &sc)`
abbrev pub unmarshal_symlink : Content → Result Text
unmarshal_symlink (file_json raw) = err Kind.unknown
unmarshal_symlink (symlink_json target) = ok target
unmarshal_symlink _ = ok []

-- `json.Unmarshal(content, &oc)`
abbrev pub unmarshal_object : Content → Result ObjectContent
unmarshal_object (file_json raw) = err Kind.unknown
unmarshal_object (object_json o) = ok o
unmarshal_object _ = ok no_object

-- `json.Unmarshal(content, &mc)`
abbrev pub unmarshal_mount : Content → Result Text
unmarshal_mount (file_json raw) = err Kind.unknown
unmarshal_mount (mount_json src) = ok src
unmarshal_mount _ = ok []
