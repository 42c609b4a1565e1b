-- ===== src/Transport/Tests.antt =====
-- Runs of internal/transport/storaged_server.go with replicas that take every fragment.
use frag_kv.Base.{
  Str, ℕ, ◌≡◌, ◌≢◌, refl, List, [], ◌∷◌, Option, none, some, Bool, true, false, codes, arith,
}
use frag_kv.Storage.{Faults, healthy}
use frag_kv.Storage.Tests.{json, one_stored}
use frag_kv.Transport.{
  Request, get_method, put_method, HttpClient, plain, put_fragment, get_fragment, replicate_from,
  handle_fragment, status_only, target_of,
}
use frag_kv.Transport.Headers.{split_on, trim_space, parse_int_header}
use frag_kv.Transport.Replication.{
  IsAcknowledged, put_fragment-IsAcknowledged, get-put_fragment, replicate_from-get,
}

abbrev willing : HttpClient
willing = record {
  upload = λ url content. some 201;
  download = λ url. some (200, plain (codes "pulled"));
}

abbrev unwilling : HttpClient
unwilling = record { upload = λ url content. some 507; download = λ url. none }

abbrev upload : Request
upload = record {
  method = put_method;
  path = codes "/fragments/a/0";
  body = plain (codes "hello");
  replica_addrs = codes "http://h2, http://h3";
  write_quorum = codes "3";
}

abbrev alone : Request
alone = record upload { replica_addrs = [] }

-- A decoder that takes the body itself for the URL.
abbrev as_is : Str → Option Str
as_is body = some body

target_runs : target_of (codes "/fragments/a/0/replicate") ≡ (codes "a/0", true)
unfolding target_of
target_runs = refl

header_runs :
    (split_on b',' (codes "x, y") ≡ codes "x" ∷ codes " y" ∷ [])
    × (trim_space (codes " y ") ≡ codes "y")
    × (parse_int_header (codes "12x") 2 ≡ 12)
    × (parse_int_header (codes "-1") 2 ≡ 2)
unfolding split_on trim_space parse_int_header
header_runs = (refl, refl, refl, refl)

quorum_missed :
    (put_fragment json healthy unwilling 5 upload (codes "a/0") one_stored).1.status ≡ 500
unfolding put_fragment frag_kv.Storage.put frag_kv.Base.str_eq
quorum_missed = refl

replicas_listed : codes "http://h2, http://h3" ≢ []
replicas_listed e = absurd (cc e)

put_fragment-IsAcknowledged_example :
    IsAcknowledged json willing 5 upload (codes "a/0") one_stored healthy
unfolding put_fragment frag_kv.Storage.put frag_kv.Base.str_eq
put_fragment-IsAcknowledged_example =
    put_fragment-IsAcknowledged json willing 5 upload (codes "a/0") one_stored healthy
      replicas_listed refl

upload_named : (target_of upload.path).0 ≢ []
unfolding target_of
upload_named e = absurd (cc e)

b_named : codes "b/0" ≢ []
b_named e = absurd (cc e)

get-put_fragment_example :
    (handle_fragment json healthy unwilling 5 as_is
      (record upload { method = get_method })
      (handle_fragment json healthy unwilling 5 as_is upload one_stored).0).1
    ≡ record { status = 200; body = codes "hello" }
get-put_fragment_example =
    get-put_fragment json unwilling 5 as_is upload one_stored refl upload_named

source_named : codes "http://h1" ≢ []
source_named e = absurd (cc e)

replicate_from-get_example :
    ((replicate_from json healthy willing 5 as_is
        (record upload { body = plain (codes "http://h1") })
        (codes "b/0")
        one_stored).1
      ≡ status_only 201)
    × ((get_fragment json healthy willing 5
          (codes "b/0")
          (replicate_from json healthy willing 5 as_is
            (record upload { body = plain (codes "http://h1") })
            (codes "b/0")
            one_stored).0).1
        ≡ record { status = 200; body = codes "pulled" })
replicate_from-get_example =
    replicate_from-get json willing 5 as_is (record upload { body = plain (codes "http://h1") })
      (codes "b/0") (codes "http://h1") (codes "pulled") one_stored refl source_named b_named refl
