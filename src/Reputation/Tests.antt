-- ===== src/Reputation/Tests.antt =====
-- An input at which the theorem on first-party hits applies.
use sentinel_mail_gateway.Prelude.{true, ◌≡◌, refl, pos}
use sentinel_mail_gateway.Strings.{
  equal_fold, contains, trim, has_suffix, upper, trim_space, cut_last,
}
use sentinel_mail_gateway.Samples.{plain_mail}
use sentinel_mail_gateway.Event.{
  Value, num, str, arr, nil, cons, obj, field, end, symbol_options, has_symbol_containing,
}
use sentinel_mail_gateway.MailAuth.{auth_signals}
use sentinel_mail_gateway.Reputation.{
  listed_domain, email_domain, is_authenticated_first_party_url_reputation_hit, domains_related,
}

abbrev own_link : Value
own_link = obj (
    field "score" (num (pos 3500))
      (field "options" (arr (cons (str "www.shop.example:url") nil)) end))

test_own_link :
    is_authenticated_first_party_url_reputation_hit "RSPAMD_URIBL" own_link plain_mail ≡ true
unfolding is_authenticated_first_party_url_reputation_hit equal_fold auth_signals
    has_symbol_containing contains upper email_domain cut_last trim trim_space symbol_options
    listed_domain domains_related has_suffix
test_own_link = refl
