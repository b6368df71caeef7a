-- ===== src/Samples.antt =====
-- Mails, a policy and parsers that the tests run the model on.
use sentinel_mail_gateway.Prelude.{true, false, none, some, [], ◌∷◌, pos, if◌then◌else◌}
use sentinel_mail_gateway.Strings.{has_prefix, contains}
use sentinel_mail_gateway.Platform.{Url, Platform}
use sentinel_mail_gateway.Event.{Event, num, end}
use sentinel_mail_gateway.Policy.{Policy}
use sentinel_mail_gateway.Decision.Stages.{Lookups}

abbrev pub invoice_page : Url
invoice_page = record {
  scheme = "https";
  host = "pay.example";
  hostname = "pay.example";
  has_user = false;
  escaped_path = "/login";
  raw_query = "";
  text = "https://pay.example/login";
}

-- knows one page and one host address, and decodes nothing
abbrev pub small_platform : Platform
small_platform = record {
  decode_base64 = λ s. none;
  parse_url = λ s. if has_prefix s "https://pay.example" then some invoice_page else none;
  is_ip = λ s. has_prefix s "192.0.2.";
  is_ip_prefix = λ s. false;
  parse_address_list = λ s. if contains s "@" then some (s ∷ []) else none;
  parse_address = λ s. if contains s "@" then some s else none;
}

abbrev pub plain_mail : Event
plain_mail = record {
  direction = "inbound";
  queue_id = "q1";
  message_id = "m1";
  from = "ann@shop.example";
  from_name = "Ann";
  reply_to = "";
  to = "bob@home.example" ∷ [];
  client_ip = "192.0.2.7";
  client_hostname = "mx.shop.example";
  helo = "mx.shop.example";
  subject = "Lunch";
  size_bytes = 900;
  score = pos 500;
  action = "no action";
  symbols = ("R_SPF_ALLOW", num (pos 0)) ∷ ("DMARC_POLICY_ALLOW", num (pos 0)) ∷ [];
  storage_key = "";
  body_text = "See you at noon.";
  raw_message_b64 = "";
  list_unsubscribe = "";
  list_unsubscribe_post = "";
  urls = "https://pay.example/login" ∷ "ftp://pay.example" ∷ [];
  attachments = [];
}

abbrev pub common_policy : Policy
common_policy = record {
  id = 1;
  organization_id = some 1;
  domain_id = none;
  name = "default";
  spam_threshold = pos 6000;
  quarantine_threshold = pos 10000;
  reject_threshold = pos 15000;
  quarantine_action = "quarantine";
  settings = end;
  is_default = true;
  updated_at = 0;
}

-- nothing is stored for the mail
abbrev pub no_lookups : Lookups
no_lookups = record {
  challenge_mode = none;
  profiles = [];
  cached = λ kind value. none;
  cached_enforcement = false;
  learned = none;
}
