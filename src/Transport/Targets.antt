-- ===== src/Transport/Targets.antt =====
-- `handleFragment` of internal/transport/storaged_server.go: the fragment ID in the path of a request.
use frag_kv.Base.{
  Str, ℕ, ◌≡◌, sym, ap, ◌∙◌, [], ◌∷◌, ◌++◌, true, false, arith, slash, codes, drop, take, length,
  take-append-drop, has_suffix, str_eq_iff, Bool-cases, inl, inr, Option, trim_prefix, trim_suffix,
  ◌-◌, ◌<◌, ◌⊎◌,
}
use frag_kv.Base.Decimal.{itoa, IsDigit, last, last-append, last-itoa-IsDigit}
use frag_kv.Fragment.{id}
use frag_kv.Base.Codec.{Codec}
use frag_kv.Storage.{FragmentMeta, Store, healthy}
use frag_kv.Storage.Writes.{stored}
use frag_kv.Transport.{
  Request, Method, HttpClient, get_method, put_method, plain, route, target_of, fragment_url,
  get_fragment, handle_fragment,
}
use frag_kv.Fragment.Ids.{id_named}
use frag_kv.Transport.Replication.{route_put, route_get, put_fragment-stored}

-- The last byte of a text is that of its suffix.
last_of_suffix : (b c : ℕ) (s p : Str) → has_suffix s (c ∷ p) ≡ true → last b s ≡ last c p
unfolding has_suffix
last_of_suffix b c s p h =
    let n = length s - length (c ∷ p) in
    let is_suffix : drop n s ≡ c ∷ p = (str_eq_iff (drop n s) (c ∷ p)).0 (ground (arith, h)) in
    ap (last b) (sym (take-append-drop n s))
    ∙ ap (λ t. last b (take n s ++ t)) is_suffix
    ∙ last-append b c (take n s) p

no_suffix :
    (key p : Str) (i c : ℕ)
    → b'9' < last c p ⊎ last c p < b'0'
    → has_suffix (id key i) (c ∷ p) ≡ false
unfolding id
no_suffix key p i c out = elim (Bool-cases (has_suffix (id key i) (c ∷ p))) [
  | inr absent ↦ absent
  | inl present ↦
      let digit : IsDigit (last 0 (id key i)) =
        rw (last-append 0 slash key (itoa i)) (last-itoa-IsDigit slash i) in
      absurd (omega (arith, digit, last_of_suffix 0 c (id key i) p present, out))
]

-- The path of a fragment names it and asks for no action, whatever its key.
pub target_of-id : (key : Str) (i : ℕ) → target_of (fragment_url [] (id key i)) ≡ (id key i, false)
unfolding target_of trim_prefix trim_suffix last
target_of-id key i = rw (
  no_suffix key (codes "replicate") i slash (inl omega arith),
  no_suffix key [] i slash (inr omega arith),
)

module _ (json : Codec FragmentMeta) (client : HttpClient) (now : ℕ) (decode : Str → Option Str)
    (key : Str) (i : ℕ) (r : Request) (s : Store)
    (located : r.path ≡ fragment_url [] (id key i)) where
  -- A request for a fragment reaches the handler of its method.
  handle-route :
      (method : Method)
      → r.method ≡ method
      → handle_fragment json healthy client now decode r s
        ≡ route json healthy client now decode false method r (id key i) s
  unfolding handle_fragment
  handle-route method asks =
      ap (λ t. route json healthy client now decode t.1 r.method r t.0 s)
        (ap target_of located ∙ target_of-id key i)
      ∙ ap (λ m. route json healthy client now decode false m r (id key i) s) asks

  -- An upload that is read whole stores its bytes, whatever it is answered with.
  pub handle-put :
      (content : Str)
      → r.method ≡ put_method
      → r.body ≡ plain content
      → (handle_fragment json healthy client now decode r s).0
        ≡ stored json (id key i) (plain content) now s
  handle-put content puts carries =
      ap (λ p. p.0)
        (handle-route put_method puts ∙ route_put json client now decode false r (id key i) s)
      ∙ put_fragment-stored json client now decode r (id key i) s (ap (λ b. b.fault) carries)
          (id_named key i)
      ∙ ap (λ b. stored json (id key i) (plain b.unread) now s) carries

  pub handle-get :
      r.method ≡ get_method
      → handle_fragment json healthy client now decode r s
        ≡ get_fragment json healthy client now (id key i) s
  handle-get gets =
      handle-route get_method gets ∙ route_get json client now decode false r (id key i) s
