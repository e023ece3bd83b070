-- ===== src/Acceptances/Path.antt =====
-- Go's path.Join as internal/acceptances/service.go uses it, and the names of the documents.
use tecora_be.Prelude.{Bool, false, ◌&&◌, ◌||◌, List, [], ◌∷◌, ◌++◌, is_empty, ◌==◌, if◌then◌else◌}
use mathlib.Core.List.{reverse}
use tecora_be.Text.{Text, codes, text_eq, trim_space}

-- The text between slashes; the first argument is the part being read.
unfoldable pub split_from : Text → Text → List Text
split_from part [] = part ∷ []
split_from part (c ∷ s) =
    let closed = split_from [] s in
    let longer = split_from (part ++ c ∷ []) s in if c == b'/' then part ∷ closed else longer

-- One element of `path.Clean`; the stack has its last element at the head.
unfoldable pub clean_part : Bool → List Text → Text → List Text
unfolding text_eq
clean_part rooted stack part =
    if is_empty part || text_eq part (codes ".")
    then stack
    else if text_eq part (codes "..")
    then elim stack [
      | [] ↦ if rooted then [] else part ∷ []
      | top ∷ below ↦ if text_eq top (codes "..") then part ∷ top ∷ below else below
    ]
    else part ∷ stack

unfoldable pub clean_parts : Bool → List Text → List Text → List Text
unfolding clean_part
clean_parts rooted stack [] = stack
clean_parts rooted stack (part ∷ parts) = clean_parts rooted (clean_part rooted stack part) parts

unfoldable pub join_slash : List Text → Text
join_slash [] = []
join_slash (part ∷ []) = part
join_slash (part ∷ next ∷ parts) = part ++ b'/' ∷ join_slash (next ∷ parts)

abbrev is_rooted : Text → Bool
is_rooted [] = false
is_rooted (c ∷ _) = c == b'/'

unfoldable pub clean : Text → Text
unfolding split_from clean_parts join_slash
clean path =
    let rooted = is_rooted path in
    let body = join_slash (reverse (clean_parts rooted [] (split_from [] path))) in
    if rooted then b'/' ∷ body else if is_empty body then codes "." else body

abbrev not_empty : List Text → List Text
not_empty [] = []
not_empty (part ∷ parts) = if is_empty part then not_empty parts else part ∷ not_empty parts

-- `path.Join`
unfoldable pub path_join : List Text → Text
unfolding clean
path_join elems = elim (not_empty elems) [
  | [] ↦ []
  | part ∷ parts ↦ clean (join_slash (part ∷ parts))
]

unfoldable pub trim_slash_left : Text → Text
trim_slash_left [] = []
trim_slash_left (c ∷ s) = if c == b'/' then trim_slash_left s else c ∷ s

unfoldable pub trim_slash_right : Text → Text
trim_slash_right [] = []
trim_slash_right (c ∷ s) =
    let r = trim_slash_right s in if is_empty r && c == b'/' then [] else c ∷ r

unfoldable pub normalize_document_prefix : Text → Text
unfolding trim_space trim_slash_left trim_slash_right
normalize_document_prefix prefix =
    let trimmed = trim_slash_right (trim_slash_left (trim_space prefix)) in
    if is_empty trimmed then codes "acceptances" else trimmed

-- The method `objectKey` of a service with the given prefix.
unfoldable pub object_key : Text → Text → Text → Text
unfolding path_join trim_space
object_key prefix org id =
    path_join (prefix ∷ trim_space org ∷ (trim_space id ++ codes ".pdf") ∷ [])
