-- ===== src/Kvctl/Others/Tests.antt =====
-- A put of cmd/kvctl/main.go, a put of another key, and a get of the first.
use frag_kv.Base.{◌≡◌, ◌≢◌, str_eq, str_eq_iff, refl, [], ◌∷◌, none, codes, arith}
use frag_kv.Base.Int.{pos}
use frag_kv.Metadata.Fsm.Tests.{k}
use frag_kv.Kvctl.Commands.{get}
use frag_kv.Kvctl.Downloads.{append}
use frag_kv.Kvctl.Tests.{
  json, setup, sizes, net, far, world, in_order, reversed, file, k_named, puts,
}
use frag_kv.Kvctl.Keys.{IsPlainKey}
use frag_kv.Kvctl.Others.Between.{PutRun, run_put, run_puts, get-put_between}
use frag_kv.Cluster.{services}

abbrev pub first : PutRun
first = record { net = net; now = 7; schedule = in_order; quorum = pos 2; key = k; file = file }

abbrev pub second : PutRun
second = record {
  net = net;
  now = 8;
  schedule = reversed;
  quorum = pos 1;
  key = codes "j";
  file = record { unread = codes "another text"; fault = none };
}

pub first_done : (run_put setup json first world).1 ≡ none
unfolding run_put
first_done = puts

pub names_apart : codes "j" ≢ k
unfolding str_eq
names_apart e = absurd (cc ((str_eq_iff (codes "j") k).1 e))

pub k-IsPlainKey : IsPlainKey k
unfolding str_eq
k-IsPlainKey = record {
  unreserved = (refl, tt);
  named = k_named;
  not_here = λ e. absurd (cc ((str_eq_iff k (codes ".")).1 e));
  not_above = λ e. absurd (cc ((str_eq_iff k (codes "..")).1 e));
}

pub other-IsPlainKey : IsPlainKey (codes "j")
unfolding str_eq
other-IsPlainKey = record {
  unreserved = (refl, tt);
  named = λ e. absurd (cc e);
  not_here = λ e. absurd (cc ((str_eq_iff (codes "j") (codes ".")).1 e));
  not_above = λ e. absurd (cc ((str_eq_iff (codes "j") (codes "..")).1 e));
}

get-put_between_example :
    ((get
        (services setup far 9)
        json
        reversed
        (pos 2)
        append
        k
        none
        (run_puts setup json (second ∷ []) (run_put setup json first world).0)
        []).1
      ≡ codes "twenty bytes of text")
    × ((get
          (services setup far 9)
          json
          reversed
          (pos 2)
          append
          k
          none
          (run_puts setup json (second ∷ []) (run_put setup json first world).0)
          []).2
        ≡ none)
get-put_between_example =
    get-put_between setup json (λ e. refl) (omega arith) sizes.unmarshal-marshal first (second ∷ [])
      world far 9 reversed (pos 2) k-IsPlainKey refl (omega arith) (omega arith)
      (
        record {
          apart = names_apart;
          plain = other-IsPlainKey;
          sound = refl;
          some_bytes = omega arith;
          fits = omega arith;
        },
        tt,
      )
      first_done
