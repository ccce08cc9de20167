-- ===== src/Server/Commands.antt =====
-- tcpserver/single_goroutine_server.go, the switch of processCommandDirect: one function for each command, on the parts of the line that
-- are left when the TTL is taken out, the first of them the command itself.
use ant_cache.Base.{
  ◌-◌, ℤ, Bool, true, false, ◌&&◌, List, [], ◌∷◌, ◌++◌, Option, none, some, Text, codes, text_eq,
  Table, insert, leb, ◌==◌, if◌then◌else◌, join,
}
use ant_cache.Item.{Compression, Value, str, array, object, other, nil}
use ant_cache.Cache
use ant_cache.Cache.{Cache}

-- How values that are not strings or arrays are written: json.Marshal of a map of strings, and the
-- format %v of other values.
pub record Formats (z : Compression) : Type 0 where
  pub marshal : Table Text → Text
  pub show : z.Packed → Text

pub record Reply (z : Compression) : Type 0 where
  pub response : Text
  pub cache : Cache z

pub data Verb : Type 0 where
  auth set sets setx setnx setsnx setxnx get del keys flush_all unknown : Verb

-- strings.ToUpper, as far as a comparison with a command name can see: ASCII letters, and the two
-- other letters whose upper case is an ASCII letter (U+0131 and U+017F).
unfoldable pub to_upper : Text → Text
to_upper [] = []
to_upper (a ∷ []) = (if leb b'a' a && leb a b'z' then a - 32 else a) ∷ []
to_upper (a ∷ b ∷ s) =
    let pair = to_upper s in
    let single = to_upper (b ∷ s) in
    if a == 0xc5 && b == 0xbf
    then b'S' ∷ pair
    else if a == 0xc4 && b == 0xb1
    then b'I' ∷ pair
    else if leb b'a' a && leb a b'z'
    then (a - 32) ∷ single
    else a ∷ single

unfoldable pub verb_of : Text → Verb
verb_of s =
    if text_eq s (codes "AUTH")
    then Verb.auth
    else if text_eq s (codes "SET")
    then Verb.set
    else if text_eq s (codes "SETS")
    then Verb.sets
    else if text_eq s (codes "SETX")
    then Verb.setx
    else if text_eq s (codes "SETNX")
    then Verb.setnx
    else if text_eq s (codes "SETSNX")
    then Verb.setsnx
    else if text_eq s (codes "SETXNX")
    then Verb.setxnx
    else if text_eq s (codes "GET")
    then Verb.get
    else if text_eq s (codes "DEL")
    then Verb.del
    else if text_eq s (codes "KEYS")
    then Verb.keys
    else if text_eq s (codes "FLUSHALL")
    then Verb.flush_all
    else Verb.unknown

-- A response ends with a newline.
abbrev pub line : Text → Text
line s = s ++ 10 ∷ []

abbrev pub error_line : Text → Text
error_line s = line (codes "ERROR " ++ s)

-- `for i := 2; i < len(filteredParts); i += 2 { object[parts[i]] = parts[i+1] }`, for an even number.
unfoldable pub pairs_into : Table Text → List Text → Table Text
pairs_into m (k ∷ v ∷ rest) = pairs_into (insert k v m) rest
pairs_into m _ = m

unfoldable pub is_even : List Text → Bool
is_even [] = true
is_even (_ ∷ []) = false
is_even (_ ∷ _ ∷ rest) = is_even rest

abbrev pub pattern_of : List Text → Text
pattern_of (command ∷ pattern ∷ rest) = pattern
pattern_of _ = codes "*"

abbrev pub keys_response : List Text → Text
keys_response [] = line (codes "EMPTY")
keys_response (k ∷ ks) = line (join (k ∷ ks))

module _ {z : Compression} where
  abbrev pub reply : Cache z → Text → Reply z
  reply c response = record { response = response; cache = c }

  -- Storing by Set and by SetNX, with the response.
  unfoldable pub store_set : Cache z → ℤ → ℤ → Text → Value z.Packed → Reply z
  store_set c now ttl key value = reply (Cache.set c now key value ttl) (line (codes "OK"))

  unfoldable pub store_set_nx : Cache z → ℤ → ℤ → Text → Value z.Packed → Reply z
  store_set_nx c now ttl key value =
      let (stored, c') = Cache.set_nx c now key value ttl in
      reply c' (if stored then line (codes "OK") else line (codes "NOT_SET"))

  -- SET and SETNX, SETS and SETSNX, SETX and SETXNX: the name stands in the error texts.
  unfoldable pub string_command :
      Text → (Text → Value z.Packed → Reply z) → Cache z → List Text → Reply z
  string_command name store c (command ∷ key ∷ v ∷ vs) = store key (str (join (v ∷ vs)))
  string_command name store c parts = reply c (error_line (name ++ codes " requires key and value"))

  unfoldable pub array_command :
      Text → (Text → Value z.Packed → Reply z) → Cache z → List Text → Reply z
  array_command name store c (command ∷ key ∷ v ∷ vs) = store key (array (v ∷ vs))
  array_command name store c parts =
      reply c (error_line (name ++ codes " requires key and at least one array element"))

  unfoldable pub object_command :
      Text → (Text → Value z.Packed → Reply z) → Cache z → List Text → Reply z
  object_command name store c (command ∷ key ∷ k ∷ v ∷ rest) =
      if is_even (k ∷ v ∷ rest)
      then store key (object (pairs_into [] (k ∷ v ∷ rest)))
      else reply c
          (error_line (name ++ codes " requires even number of arguments for key-value pairs"))
  object_command name store c parts =
      reply c (error_line (name ++ codes " requires key and at least one key-value pair"))

  unfoldable pub format_value : Formats z → Option (Value z.Packed) → Text
  format_value f none = line (codes "NULL")
  format_value f (some (str s)) = line s
  format_value f (some (array vs)) = line (codes "[" ++ join vs ++ codes "]")
  format_value f (some (object m)) = line (f.marshal m)
  format_value f (some (other p)) = line (f.show p)
  format_value f (some nil) = line (codes "<nil>")

  unfoldable pub get_command : Formats z → Cache z → ℤ → List Text → Reply z
  get_command f c now (command ∷ key ∷ rest) = reply c (format_value f (Cache.get c now key))
  get_command f c now parts = reply c (error_line (codes "GET requires key"))

  abbrev pub deleted_reply : Option (Bool × Cache z) → Option (Reply z)
  deleted_reply none = none
  deleted_reply (some (deleted, c)) =
      some (reply c (if deleted then line (codes "OK") else line (codes "NOT_FOUND")))

  unfoldable pub del_command : Cache z → ℤ → List Text → Option (Reply z)
  del_command c now (command ∷ key ∷ rest) = deleted_reply (Cache.delete c now key)
  del_command c now parts = some (reply c (error_line (codes "DEL requires key")))

  unfoldable pub keys_command : Cache z → ℤ → List Text → Reply z
  keys_command c now parts = reply c (keys_response (Cache.keys c now (pattern_of parts)))

  unfoldable pub run : Formats z → Cache z → ℤ → ℤ → Verb → List Text → Option (Reply z)
  unfolding string_command array_command object_command store_set store_set_nx get_command
      del_command keys_command
  run f c now ttl Verb.set parts = some (string_command (codes "SET") (store_set c now ttl) c parts)
  run f c now ttl Verb.sets parts =
      some (array_command (codes "SETS") (store_set c now ttl) c parts)
  run f c now ttl Verb.setx parts =
      some (object_command (codes "SETX") (store_set c now ttl) c parts)
  run f c now ttl Verb.setnx parts =
      some (string_command (codes "SETNX") (store_set_nx c now ttl) c parts)
  run f c now ttl Verb.setsnx parts =
      some (array_command (codes "SETSNX") (store_set_nx c now ttl) c parts)
  run f c now ttl Verb.setxnx parts =
      some (object_command (codes "SETXNX") (store_set_nx c now ttl) c parts)
  run f c now ttl Verb.get parts = some (get_command f c now parts)
  run f c now ttl Verb.del parts = del_command c now parts
  run f c now ttl Verb.keys parts = some (keys_command c now parts)
  run f c now ttl Verb.flush_all parts = some (reply (Cache.flush_all c).1 (line (codes "OK")))
  run f c now ttl _ parts = some (reply c (error_line (codes "unknown command")))
