-- ===== src/Upstream/Headers.antt =====
-- internal/upstream/config.go: the headers that are sent upstream.
pub mod Encoding
pub mod Parsing
pub mod Refused
pub mod Withheld
use otlp_collector_oidc.Prelude.{
  ℕ, ◌+◌, less, Text, bytes, ◌==◌, contains, List, [], ◌∷◌, ◌++◌, map, Option, none, some,
  if◌then◌else◌, Bool, true, false, not, ◌&&◌, ◌||◌, ltb, leb, eqb, split, cut, join, trim_space,
  to_lower, is_empty, Entries,
}
use otlp_collector_oidc.Prelude.Escape.{query_escape, unescape}
use otlp_collector_oidc.Prelude.Ordered.{put}
use otlp_collector_oidc.Prelude.Result.{Result, ok, err, ◌>>=◌, itoa}

pub record Header : Type 0 where
  pub name : Text
  pub value : Text

insert_header : Header → List Header → List Header
insert_header h [] = h ∷ []
insert_header h (g ∷ gs) = if less g.name h.name then g ∷ insert_header h gs else h ∷ g ∷ gs

-- `slices.SortStableFunc` by name.
unfoldable pub sort : List Header → List Header
unfolding insert_header
sort [] = []
sort (h ∷ hs) = insert_header h (sort hs)

unfoldable pub encode_pair : Header → Text
encode_pair p = query_escape p.name ++ b'=' ∷ query_escape p.value

unfoldable pub new_headers : List Header → Text
unfolding sort
new_headers pairs = join (map encode_pair (sort pairs)) (b'&' ∷ [])

-- `name, _ := url.QueryUnescape(k)`, which is empty where there is an error.
abbrev pub or_empty : Option Text → Text
or_empty none = []
or_empty (some s) = s

unfoldable pub decode_pair : Text → Header
decode_pair pair =
    let (k, v, _) = cut b'=' pair in
    record { name = or_empty (unescape true k); value = or_empty (unescape true v) }

-- `Headers.Pairs`.
unfoldable pub pairs : Text → List Header
unfolding decode_pair
pairs h = if is_empty h then [] else map decode_pair (split b'&' h)

-- `Headers.Names`.
unfoldable pub names : Text → List Text
names h = map (λ p. p.name) (pairs h)

abbrev pub is_none : Option Text → Bool
is_none none = true
is_none (some _) = false

pub redact : Header → Header
redact p = record p { value = bytes "<redacted>" }

-- `Headers.Redacted`.
unfoldable pub redacted : Text → Text
unfolding redact
redacted h = new_headers (map redact (pairs h))

unfoldable pub valid_header_value : Text → Bool
valid_header_value [] = true
valid_header_value (c ∷ s) =
    not ((ltb c 0x20 && not (eqb c b'\t')) || ltb 0x7e c) && valid_header_value s

contains_byte : Text → ℕ → Bool
contains_byte [] c = false
contains_byte (b ∷ s) c = eqb b c || contains_byte s c

-- The characters of a token. A rune outside ASCII is none, and neither are the bytes that it is.
unfoldable pub is_token : ℕ → Bool
unfolding contains_byte
is_token c =
    (leb b'a' c && leb c b'z')
    || (leb b'A' c && leb c b'Z')
    || (leb b'0' c && leb c b'9')
    || contains_byte (bytes "!#$%&'*+-.^_`|~") c

unfoldable pub valid_header_name : Text → Bool
valid_header_name [] = true
valid_header_name (c ∷ s) = is_token c && valid_header_name s

unfoldable pub pair_error : ℕ → Text → Text
pair_error n what = bytes "pair " ++ (itoa n ++ (bytes " " ++ what))

-- The switch over a pair, whose parts are cut and unescaped; the name of an error is empty.
unfoldable pub check_pair : ℕ → Bool → Option Text → Option Text → Result Header
check_pair n found k v =
    let name = or_empty k in
    let value = or_empty v in
    if not found || is_empty name
    then err (pair_error n (bytes "is not key=value"))
    else if is_none k || is_none v
    then err (pair_error n (bytes "has a malformed percent-encoding"))
    else if not (valid_header_name name)
    then err (pair_error n (bytes "has a name that is not an HTTP header token"))
    else if not (valid_header_value value)
    then err (pair_error n (bytes "has a value with a control or non-ASCII character"))
    else ok (record { name = name; value = value })

unfoldable pub read_pair : ℕ → Text → Result Header
unfolding check_pair
read_pair n item =
    let (k, v, found) = cut b'=' item in
    check_pair n found (unescape false (trim_space k)) (unescape false (trim_space v))

unfoldable pub add_header : Entries ℕ × List Header → Header → Entries ℕ × List Header
add_header state h = put (to_lower h.name) h (λ _. h) state

-- The loop over the items, the next of which is the n-th.
unfoldable pub read_pairs :
    ℕ → Entries ℕ × List Header → List Text → Result (Entries ℕ × List Header)
read_pairs n state [] = ok state
read_pairs n state (item ∷ items) =
    let skipped = read_pairs (n + 1) state items in
    if is_empty (trim_space item)
    then skipped
    else read_pair n item >>= λ h. read_pairs (n + 1) (add_header state h) items

unfoldable pub parse_headers : Text → Result Text
parse_headers raw =
    read_pairs 1 ([], []) (split b',' raw) >>= λ (index, pairs). ok (new_headers pairs)
