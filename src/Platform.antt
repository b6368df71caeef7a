-- ===== src/Platform.antt =====
-- The parsers of Go's standard library that the mail pipeline calls on attacker-supplied text
-- (encoding/base64, net/url, net/netip, net/mail), as one interface: the model fixes no grammar for
-- them and assumes no law of them.
use sentinel_mail_gateway.Prelude.{String, Bool, Option, List}

-- What the pipeline reads of a `*url.URL`.
pub record Url : Type 0 where
  pub scheme : String
  pub host : String
  pub hostname : String
  pub has_user : Bool
  pub escaped_path : String
  pub raw_query : String
  pub text : String

-- `none` is the call's error result.
pub record Platform : Type 0 where
  -- base64.StdEncoding.DecodeString
  pub decode_base64 : String → Option String
  -- url.Parse
  pub parse_url : String → Option Url
  -- netip.ParseAddr and netip.ParsePrefix, of which only the success is used
  pub is_ip : String → Bool
  pub is_ip_prefix : String → Bool
  -- mail.ParseAddressList and mail.ParseAddress, the `Address` fields
  pub parse_address_list : String → Option (List String)
  pub parse_address : String → Option String
