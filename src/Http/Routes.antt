-- ===== src/Http/Routes.antt =====
-- HandleHttpProtocol of csession.cpp: how requests find their handlers.
use boost_asio_threadpool.Base.{
  ==_iff, ◌==◌, Bool, Bytes_eq, List, [], ap, bytes_eq, false, if◌then◌else◌, lookup, refl, true, ℕ,
  ◌++◌, ◌∷◌, ◌≡◌, ◌≢◌, ◌∙◌, sym, Bool-cases, inl, inr, bytes_eq_iff,
}
use mathlib.Core.Bool.{false≢true}
use boost_asio_threadpool.Base.Outcome.{returns}
use boost_asio_threadpool.Http.{
  answers, by_none, get_answer, get_method, handle_get, handle_http_protocol, handle_post,
  not_found_status, post_answer, post_handlers, post_method, post_userlogin_path,
  post_userregister_path, post_verifyemail_path,
}
use boost_asio_threadpool.Session.{Role}
use boost_asio_threadpool.UrlCode.Query.{
  AreBytes, Lacks, Params, encode_query, insert_all, pre_parse_get_param-encode,
}

-- Whether a byte is none of a list's, and what that means.
abbrev pub is_lacking : ℕ → List ℕ → Bool
is_lacking c [] = true
is_lacking c (x ∷ s) = if x == c then false else is_lacking c s

pub is_lacking-Lacks : (c : ℕ) (s : List ℕ) → is_lacking c s ≡ true → Lacks c s
is_lacking-Lacks c [] e = tt
is_lacking-Lacks c (x ∷ s) e = elim (Bool-cases (x == c)) [
  | inl same ↦ absurd (false≢true (ap (λ b. if b then false else is_lacking c s) (sym same) ∙ e))
  | inr other ↦ (
    λ same. false≢true (sym other ∙ (==_iff x c).1 same),
    is_lacking-Lacks c s (ap (λ b. if b then false else is_lacking c s) (sym other) ∙ e),
  )
]

-- A list with '?' in it is none without.
has_mark : (path url rest : List ℕ) → Lacks b'?' path → bytes_eq path (url ++ (b'?' ∷ rest)) ≡ false
has_mark path url rest lacks = elim (Bool-cases (bytes_eq path (url ++ (b'?' ∷ rest)))) [
  | inl same ↦
      absurd (differs path url rest lacks ((bytes_eq_iff path (url ++ (b'?' ∷ rest))).0 same))
  | inr other ↦ other
]
  where
    differs : (path url rest : List ℕ) → Lacks b'?' path → path ≢ url ++ (b'?' ∷ rest)
    differs [] [] rest lacks e = cc
    differs [] (x ∷ url) rest lacks e = cc
    differs (x ∷ path) [] rest lacks e = absurd (lacks.0 cc)
    differs (x ∷ path) (y ∷ url) rest lacks e = differs path url rest lacks.1 cc

-- A request whose target is a path without '?' and a query of encoded parameters leaves the session
-- with the parameters as they were before they were encoded. A GET is answered by the handler of the
-- path, or with 404 if it has none; a POST is answered with 404 whatever its path, since HandlePost
-- looks for the whole target.
pub handle_http_protocol-encode :
    (role : Role) (url : List ℕ) (ps params : Params)
    → Lacks b'?' url
    → AreBytes ps
    → (handle_http_protocol false role get_method (url ++ (b'?' ∷ encode_query ps)) params
        ≡ returns (insert_all ps params, get_answer (handle_get url)))
      × (handle_http_protocol false role post_method (url ++ (b'?' ∷ encode_query ps)) params
          ≡ returns (insert_all ps params, answers not_found_status by_none))
unfolding handle_http_protocol handle_post post_handlers lookup post_answer
handle_http_protocol-encode role url ps params no_mark are_bytes =
    let parsed = pre_parse_get_param-encode url ps params no_mark are_bytes in
    (
      rw parsed refl,
      rw
          (
            parsed,
            has_mark post_verifyemail_path url (encode_query ps)
                (is_lacking-Lacks b'?' post_verifyemail_path refl),
            has_mark post_userregister_path url (encode_query ps)
                (is_lacking-Lacks b'?' post_userregister_path refl),
            has_mark post_userlogin_path url (encode_query ps)
                (is_lacking-Lacks b'?' post_userlogin_path refl),
          )
          refl,
    )
