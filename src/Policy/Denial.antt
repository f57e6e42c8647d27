-- ===== src/Policy/Denial.antt =====
-- deny and its extended error in internal/policy/policy.go: what a refusal carries.
use rcvd.Prelude.{◌≡◌, refl, inl, inr, true, false, none, some, [], ◌∷◌, ◌++◌, Option-cases}
use rcvd.Text.{Text}
use rcvd.Dns.{Msg, Opt, DnsLib, EdnsLaws}
use rcvd.Dns.Rcode
use rcvd.Policy.{attach_ede, refused_reply, deny_reply, prohibited, edns_udp_buf_size}

-- The parts of a denial that do not depend on the client's EDNS.
pub record IsDenial (query reply : Msg) : Type 0 where
  pub same_id : reply.id ≡ query.id
  pub same_question : reply.question ≡ query.question
  pub refused : reply.rcode ≡ Rcode.refused
  pub is_response : reply.response ≡ true
  pub no_answer : reply.answer ≡ []
  pub no_authority : reply.ns ≡ []

attach_ede-IsDenial :
    (lib : DnsLib) (query m : Msg) (reason : Text)
    → EdnsLaws lib
    → IsDenial query m
    → IsDenial query (attach_ede lib m reason)
unfolding attach_ede
attach_ede-IsDenial lib query m reason laws h = elim (Option-cases (lib.is_edns0 m)) [
  | inl e ↦ rw (e, attach_ede) h
  | inr (o, e) ↦
      let (extra, types, written) =
        laws.in_place m (record o { ede = o.ede ++ (prohibited, reason) ∷ [] }) in
      rw (e, attach_ede, written)
        (record {
          same_id = h.same_id;
          same_question = h.same_question;
          refused = h.refused;
          is_response = h.is_response;
          no_answer = h.no_answer;
          no_authority = h.no_authority;
        })
]

-- Under the documented behaviour of the OPT functions, a denial is a REFUSED response to the
-- query, with its ID and question and with no answer, whether or not it carries an OPT.
pub deny_reply-IsDenial :
    (lib : DnsLib) (query : Msg) (reason : Text)
    → EdnsLaws lib
    → IsDenial query (deny_reply lib query reason)
unfolding deny_reply refused_reply
deny_reply-IsDenial lib query reason laws =
    let base : IsDenial query (refused_reply query) = record {
      same_id = refl;
      same_question = refl;
      refused = refl;
      is_response = refl;
      no_answer = refl;
      no_authority = refl;
    } in
    elim (Option-cases (lib.is_edns0 query)) [
      | inl e ↦ rw (e, deny_reply) base
      | inr (o, e) ↦
          let (rr, t, made) = laws.appends (refused_reply query) edns_udp_buf_size false in
          rw (e, deny_reply)
            (attach_ede-IsDenial lib query _ reason laws (
              rw made (record {
                same_id = refl;
                same_question = refl;
                refused = refl;
                is_response = refl;
                no_answer = refl;
                no_authority = refl;
              })))
    ]

-- A query without an OPT gets a denial without an OPT; a query with one gets a denial whose OPT
-- carries exactly one extended error, 18 (Prohibited), with the reason as its text.
pub deny_reply-ede :
    (lib : DnsLib) (query : Msg) (reason : Text)
    → EdnsLaws lib
    → ((lib.is_edns0 query ≡ none) → lib.is_edns0 (deny_reply lib query reason) ≡ none)
      × ((o : Opt)
          → lib.is_edns0 query ≡ some o
          → (p : Opt) × (lib.is_edns0 (deny_reply lib query reason) ≡ some p)
            × (p.ede ≡ (prohibited, reason) ∷ []))
unfolding deny_reply refused_reply attach_ede
deny_reply-ede lib query reason laws = (
  λ e. rw (e, deny_reply) (laws.missing (refused_reply query) refl),
  λ o e.
      let found = laws.appended (refused_reply query) edns_udp_buf_size false refl in
      let p : Opt = record {
        udp_size = edns_udp_buf_size;
        dnssec_ok = false;
        ede = (prohibited, reason) ∷ [];
      } in
      (p, rw (e, deny_reply, found, attach_ede) (laws.updated _ _ p found), refl),
)
