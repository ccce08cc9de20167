-- ===== src/Config.antt =====
-- config/config.go: the configuration file and its defaults. The JSON package, time.ParseDuration and
-- the file are arguments.
pub mod Defaults
use ant_cache.Base.{
  ℕ, zero, suc, ◌+◌, ◌-◌, ◌*◌, ◌≤◌, ◌<◌, ◌≡◌, refl, sym, ap, ◌∙◌, ◌≢◌, ◌⊎◌, inl, inr, Bool, true,
  false, not, ◌&&◌, ◌||◌, Option, none, some, List, [], ◌∷◌, ◌++◌, arith, ℤ, pos, negsuc,
  if◌then◌else◌, Text, codes, text_eq, Table, lookup, insert, erase, length, ltb_ℤ, ◌==◌, is_some,
  Bool-cases, Option-cases, All, lookup-insert, lookup-erase, text_eq_iff, text_eq_refl, leb, ltb,
  join, ◌<ℤ◌,
}
use ant_cache.Auth.{Result, ok, error}

-- The fields of the four inner structs; MinSize is an int.
pub record Config : Type 0 where
  pub host : Text
  pub port : Text
  pub password : Text
  pub atd_interval : Text
  pub acl_interval : Text
  pub compression_enabled : Bool
  pub compression_type : Text
  pub compression_level : Text
  pub min_size : ℤ
  pub strings_only : Bool

-- json.Decoder.Decode into a given Config and json.MarshalIndent; the left values are errors.
pub data Decoded : Type 0 where
  decoded : Config → Decoded
  decode_error : Text → Decoded

pub record Json : Type 0 where
  pub decode : Text → Decoded
  pub marshal_indent : Config → Result

abbrev pub second : ℤ
second = pos 1000000000

abbrev pub hour : ℤ
hour = pos 3600000000000

abbrev pub parsed_or : ℤ → Option ℤ → ℤ
parsed_or default none = default
parsed_or default (some duration) = duration

-- `parse_duration` gives `none` for an error.
unfoldable pub get_atd_interval : (Text → Option ℤ) → Config → ℤ
get_atd_interval parse_duration c =
    if text_eq c.atd_interval [] then hour else parsed_or hour (parse_duration c.atd_interval)

unfoldable pub get_acl_interval : (Text → Option ℤ) → Config → ℤ
get_acl_interval parse_duration c =
    if text_eq c.acl_interval [] then second else parsed_or second (parse_duration c.acl_interval)

abbrev pub or_default : Text → Text → Text
or_default default s = if text_eq s [] then default else s

abbrev pub or_size : ℤ → ℤ → ℤ
or_size default (pos zero) = default
or_size default n = n

-- The assignments behind the decoding.
unfoldable pub with_defaults : Config → Config
with_defaults c = record c {
  host = or_default (codes "localhost") c.host;
  port = or_default (codes "8890") c.port;
  atd_interval = or_default (codes "1h") c.atd_interval;
  acl_interval = or_default (codes "1s") c.acl_interval;
  compression_type = or_default (codes "gzip") c.compression_type;
  compression_level = or_default (codes "default") c.compression_level;
  min_size = or_size (pos 1024) c.min_size;
}

abbrev pub filled : Decoded → Decoded
filled (decoded c) = decoded (with_defaults c)
filled (decode_error e) = decode_error e

-- The text of the file, or the error of Open.
unfoldable pub load_config : Json → Result → Decoded
unfolding with_defaults
load_config json (error e) = decode_error e
load_config json (ok text) = filled (json.decode text)

abbrev pub saved : Option Text → Result → Option Text × Option Text
saved file (ok text) = (none, some text)
saved file (error e) = (some e, file)

-- The error, and the file after it, where the write meets no error.
unfoldable pub save_config : Json → Config → Option Text → Option Text × Option Text
save_config json c file = saved file (json.marshal_indent c)

abbrev pub default_config : Config
default_config = record {
  host = codes "localhost";
  port = codes "8890";
  password = [];
  atd_interval = codes "1h";
  acl_interval = codes "1s";
  compression_enabled = false;
  compression_type = codes "gzip";
  compression_level = codes "default";
  min_size = pos 1024;
  strings_only = false;
}
