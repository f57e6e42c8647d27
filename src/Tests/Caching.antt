-- ===== src/Tests/Caching.antt =====
-- The cache and the statistics on concrete messages.
use rcvd.Prelude.{
  ◌≤◌, ◌<◌, ◌≡◌, refl, ◌⊎◌, true, false, none, some, List, [], ◌∷◌, length, is_empty, arith,
}
use rcvd.Prelude.Int.{pos, is_positive, pos_part}
use rcvd.Text.{codes, to_lower, text_eq}
use rcvd.Table.{lookup, insert}
use rcvd.Dns.{Question, other, Msg, empty_msg}
use rcvd.Cache.{
  Options, Cache, new, key_of, do_flag, get, get_read, get_stale, put, question_agrees, is_negative,
  neg_ttl, store, is_expired, ttl_for, extract_min_ttl, min_ttl_from, min_ttl_extra,
}
use rcvd.Cache.Bounds.{IsValid, get_call, put_call, run, step, run-new-IsValid}
use rcvd.Cache.Honest.{get_answers_question}
use rcvd.Cache.Ideal.{ideal_get, ideal_run, nothing}
use rcvd.Cache.Refinement.{get_refines}
use rcvd.Cache.Exact.{get_exact}
use rcvd.Cache.Serving.{get-put}
use rcvd.Cache.Ttl.{ttl_for_bounds}
use rcvd.Tests.Library.{lib, lib-KeyLaws, type_name, class_name, find_opt}

abbrev request : Msg
request = record empty_msg {
  question = record { name = codes "a.com."; qtype = 1; qclass = 1 } ∷ [];
}

abbrev request_question : Question
request_question = record { name = codes "a.com."; qtype = 1; qclass = 1 }

abbrev reply : Msg
reply = record empty_msg {
  question = record { name = codes "A.com."; qtype = 1; qclass = 1 } ∷ [];
  answer =
      record { name = codes "a.com."; rrtype = 1; ttl = 120; body = other (codes "1.2.3.4") } ∷ [];
}

abbrev options : Options
options = record {
  enabled = true;
  max_size = pos 1;
  ttl_min = pos 0;
  ttl_max = pos 300;
  neg_ttl_max = pos 0;
  serve_stale_max_s = pos 10;
}

abbrev cache : Cache
cache = record {
  enabled = true;
  max_size = 1;
  ttl_min = 0;
  ttl_max = 300;
  neg_ttl_max = pos 0;
  serve_stale_max_s = pos 10;
  entries = [];
}

get-put_example :
    ((get lib (put lib cache 7 request reply) 8 request).1 ≡ some reply)
    × (get_stale lib (put lib cache 7 request reply) 8 request ≡ none)
unfolding question_agrees text_eq to_lower ttl_for is_negative extract_min_ttl min_ttl_from
    min_ttl_extra
get-put_example = get-put lib cache 7 8 request reply request_question [] 120 refl refl refl refl

ttl_for_bounds_example :
    ((is_negative reply ≡ true)
      × (is_positive cache.neg_ttl_max ≡ true)
      × (0 < 120)
      × (120 ≤ pos_part cache.neg_ttl_max)
      × (120 ≤ neg_ttl reply))
    ⊎ ((is_negative reply ≡ false) × (120 ≤ 300) × (0 ≤ 300 → 0 ≤ 120))
unfolding ttl_for is_negative extract_min_ttl min_ttl_from min_ttl_extra
ttl_for_bounds_example = ttl_for_bounds cache reply 120 refl

run-new-IsValid_example :
    IsValid (run lib (new options) (put_call 7 request reply ∷ get_call 8 request ∷ []))
    × (length (run lib (new options) (put_call 7 request reply ∷ get_call 8 request ∷ [])).entries
        ≤ 1)
run-new-IsValid_example =
    run-new-IsValid lib options (put_call 7 request reply ∷ get_call 8 request ∷ [])

get_answers_question_example :
    (q : Question) × (qs : List Question) × (request.question ≡ q ∷ qs)
    × (is_empty (type_name q.qtype) ≡ false
        → is_empty (class_name q.qclass) ≡ false
        → question_agrees lib q reply.question ≡ true)
unfolding run step new put get get_read store insert lookup is_expired key_of do_flag
    question_agrees text_eq to_lower ttl_for is_negative extract_min_ttl min_ttl_from min_ttl_extra
    type_name class_name find_opt
get_answers_question_example =
    get_answers_question lib lib-KeyLaws options (put_call 7 request reply ∷ []) 8 request reply
      refl

get_refines_example :
    ideal_get lib
      (new options)
      (ideal_run lib (new options) nothing (put_call 7 request reply ∷ []))
      8
      request
    ≡ some reply
unfolding new run step get get_read put store insert lookup key_of do_flag question_agrees text_eq
    to_lower ttl_for is_negative extract_min_ttl min_ttl_from min_ttl_extra is_expired type_name
    class_name find_opt
get_refines_example = get_refines lib options (put_call 7 request reply ∷ []) 8 request reply refl

get_exact_example :
    (get lib (run lib (new options) (put_call 7 request reply ∷ [])) 9 request).1
    ≡ ideal_get lib
        (new options)
        (ideal_run lib (new options) nothing (put_call 7 request reply ∷ []))
        9
        request
get_exact_example =
    get_exact lib options (put_call 7 request reply ∷ []) 9 request (omega arith, omega arith) tt
      (unfold new in omega arith)
