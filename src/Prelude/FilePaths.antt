-- ===== src/Prelude/FilePaths.antt =====
-- Go's `filepath.Clean` on a system whose separator is the slash.
use Prim.Native.Char.{code}
use Prim.Native.String.{String, ◌++◌}
use mathlib.Core.Bool.{Bool, true, false, ◌||◌, not}
use mathlib.Core.List.{List, [], ◌∷◌, reverse}
use text.Mathlib.Text.{◌==◌ as str_eq}
use durable_acp.Prelude.Tests.{◌==◌, if◌then◌else◌}
use durable_acp.Prelude.Strings.{is_empty}

-- The parts between the slashes; there is always a first one.
abbrev onto_part : String → List String → List String
onto_part c [] = c ∷ []
onto_part c (p ∷ ps) = (c ++ p) ∷ ps

unfoldable pub path_parts : String → List String
path_parts String.[] = "" ∷ []
path_parts (String.◌∷◌ c s) =
    let rest = path_parts s in
    if code c == 47 then "" ∷ rest else onto_part (String.◌∷◌ c String.[]) rest

abbrev is_above : List String → Bool
is_above [] = true
is_above (p ∷ ps) = str_eq p ".."

abbrev without_first : List String → List String
without_first [] = []
without_first (p ∷ ps) = ps

-- One part onto the cleaned ones, the last of which stands first.
unfoldable pub clean_part : Bool → String → List String → List String
clean_part rooted part kept =
    if is_empty part || str_eq part "."
    then kept
    else if str_eq part ".."
    then (if not (is_above kept) then without_first kept else if rooted then kept else part ∷ kept)
    else part ∷ kept

unfoldable pub clean_parts : Bool → List String → List String → List String
clean_parts rooted [] kept = kept
clean_parts rooted (part ∷ parts) kept = clean_parts rooted parts (clean_part rooted part kept)

unfoldable pub join_parts : List String → String
join_parts [] = ""
join_parts (p ∷ []) = p
join_parts (p ∷ q ∷ ps) = p ++ ("/" ++ join_parts (q ∷ ps))

abbrev is_rooted : String → Bool
is_rooted String.[] = false
is_rooted (String.◌∷◌ c s) = code c == 47

unfoldable pub clean_path : String → String
unfolding path_parts clean_part clean_parts join_parts
clean_path path =
    let rooted = is_rooted path in
    let cleaned = join_parts (reverse (clean_parts rooted (path_parts path) [])) in
    if rooted then "/" ++ cleaned else if is_empty cleaned then "." else cleaned
