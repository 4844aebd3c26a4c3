-- ===== src/Transport/Accounts.antt =====
-- The handlers of internal/httptransport/handler.go for users and sessions.
use test.Common.{String, not, none, some}
use test.Transport.Caching.{Library}
use test.Transport.Filter.{Query, query_value, or_empty}
use test.Transport.Handler.{
  Handler, Exchange, Request, respond, or_domain_error, or_bad_request, refuse_if, is_url_encoded,
}
use test.Transport.Writer.{ResponseWriter, Payload, write_json, not_implemented}

-- `Get` of `url.Values`
abbrev pub form_value : Query → String → String
form_value form name = or_empty (query_value form name)

module _ {W R : Type 0} (x : Library) (out : ResponseWriter R) where
  -- `parseURLForm`; `next` is what follows on the parsed form.
  unfoldable pub parse_url_form :
      Request → (Query → Exchange W R → Exchange W R) → Exchange W R → Exchange W R
  unfolding is_url_encoded refuse_if or_bad_request
  parse_url_form r next =
      refuse_if x.encoding out (not (is_url_encoded r.content_type))
        (or_bad_request x.encoding out (x.parsing.parse_form r) next)

  module _ (h : Handler W) where
    unfoldable pub register : Request → Exchange W R → Exchange W R
    unfolding parse_url_form not_implemented or_domain_error write_json query_value
    register r e = elim h.deps.auth [
      | none ↦ respond (not_implemented x.encoding out) e
      | some auth ↦
          parse_url_form r
            (λ form parsed.
              or_domain_error x.encoding out
                (auth.register (form_value form "token") (form_value form "login")
                  (form_value form "pswd") parsed.world)
                (λ user.
                  respond
                    (write_json x.encoding out 200 (Payload.response_text "login" user.login)))
                parsed)
            e
    ]

    unfoldable pub authenticate : Request → Exchange W R → Exchange W R
    unfolding parse_url_form not_implemented or_domain_error write_json query_value
    authenticate r e = elim h.deps.auth [
      | none ↦ respond (not_implemented x.encoding out) e
      | some auth ↦
          parse_url_form r
            (λ form parsed.
              or_domain_error x.encoding out
                (auth.authenticate (form_value form "login") (form_value form "pswd") parsed.world)
                (λ token.
                  respond (write_json x.encoding out 200 (Payload.response_text "token" token)))
                parsed)
            e
    ]

    unfoldable pub logout : String → Exchange W R → Exchange W R
    unfolding not_implemented or_domain_error write_json
    logout token e = elim h.deps.auth [
      | none ↦ respond (not_implemented x.encoding out) e
      | some auth ↦
          or_domain_error x.encoding out (auth.logout token e.world)
            (λ _. respond (write_json x.encoding out 200 (Payload.response_flag token))) e
    ]
