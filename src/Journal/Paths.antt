-- ===== src/Journal/Paths.antt =====
-- journal/store.go: the file of a session, by a safe form of its identifier.
use Prim.Native.Char.{Char, code}
use Prim.Native.String.{◌++◌ as ◌⧺◌}
use text.Mathlib.TextLemmas.{append_cancel_right}
use durable_acp.Prelude.{
  ℕ, String, ◌≡◌, sym, ◌∙◌, Bool, ◌&&◌, ◌||◌, leb, ◌==◌, trim_space, if◌then◌else◌,
}

-- The characters that `safeSessionID` keeps.
pub is_safe_char : ℕ → Bool
is_safe_char c =
    (leb b'a' c && leb c b'z')
    || (leb b'A' c && leb c b'Z')
    || (leb b'0' c && leb c b'9')
    || c == b'-'
    || c == b'_'

pub safe_chars : String → String
safe_chars String.[] = String.[]
safe_chars (String.◌∷◌ c s) =
    let underscore : Char = "_" in
    String.◌∷◌ (if is_safe_char (code c) then c else underscore) (safe_chars s)

unfoldable pub safe_session_id : String → String
unfolding safe_chars is_safe_char
safe_session_id session_id = safe_chars (trim_space session_id)

-- `path`, below the store's directory.
unfoldable pub path : String → String
path session_id = safe_session_id session_id ⧺ ".jsonl"

-- An identifier that is its own safe form: no two of these share a file.
abbrev pub IsSafe : String → Type 0
IsSafe session_id = safe_session_id session_id ≡ session_id

pub path-injective : (a b : String) → IsSafe a → IsSafe b → path a ≡ path b → a ≡ b
unfolding path
path-injective a b ha hb h =
    sym ha ∙ append_cancel_right (safe_session_id a) (safe_session_id b) ".jsonl" h ∙ hb
