-- ===== src/Pool/Replies.antt =====
-- What the commands of RedisMgr.cpp make of a reply.
use boost_asio_threadpool.Base.{
  Bool, not, bytes_eq, if◌then◌else◌, Bool-cases, Option-cases, inl, inr, ◌⊎◌, true, [], false,
  none, refl, some, ◌∷◌, ◌≡◌,
}
use boost_asio_threadpool.Base.Outcome.{Outcome, returns}
use boost_asio_threadpool.Pool.Redis.{
  Reply, ReplyType, reply_nil, reply_status, reply_string, get_reply, set_reply, push_reply,
  integer_reply, h_get_reply, h_del_reply, exists_reply, copy_str, is_kind, pop_reply,
}

-- For which kinds of reply a command reads the text.
abbrev pub if_string : ReplyType → Bool
if_string kind = is_kind kind reply_string

abbrev pub if_status : ReplyType → Bool
if_status kind = is_kind kind reply_status

abbrev pub unless_nil : ReplyType → Bool
unless_nil kind = not (is_kind kind reply_nil)

abbrev pub never : ReplyType → Bool
never kind = false

-- What a command makes of a reply is a result, or else it reads the text of a reply that has none.
abbrev pub Settles : {A : Type 0} → (ReplyType → Bool) → (Reply → Outcome A) → Type 0
Settles {A} reads accept =
    (r : Reply) → ((r.str ≡ none) × (reads r.kind ≡ true)) ⊎ ((a : A) × (accept r ≡ returns a))

pub get_reply-Settles : Settles if_string get_reply
unfolding get_reply copy_str
get_reply-Settles r = elim (Bool-cases (is_kind r.kind reply_string)) [
  | inl is ↦ elim (Option-cases r.str) [
    | inl e ↦ inl (e, is)
    | inr (t, e) ↦ inr (some t, rw (is, e) refl)
  ]
  | inr other ↦ inr (none, rw other refl)
]

pub set_reply-Settles : Settles if_status set_reply
unfolding set_reply copy_str
set_reply-Settles r = elim (Bool-cases (is_kind r.kind reply_status)) [
  | inl is ↦ elim (Option-cases r.str) [
    | inl e ↦ inl (e, is)
    | inr (t, e) ↦ inr (
      if bytes_eq t (b'O' ∷ b'K' ∷ []) then true else bytes_eq t (b'o' ∷ b'k' ∷ []),
      rw (is, e) refl,
    )
  ]
  | inr other ↦ inr (false, rw other refl)
]

pub pop_reply-Settles : Settles unless_nil pop_reply
unfolding pop_reply copy_str
pop_reply-Settles r = elim (Bool-cases (is_kind r.kind reply_nil)) [
  | inl is ↦ inr (none, rw is refl)
  | inr other ↦ elim (Option-cases r.str) [
    | inl e ↦ inl (e, rw other refl)
    | inr (t, e) ↦ inr (some t, rw (other, e) refl)
  ]
]

pub h_get_reply-Settles : Settles unless_nil h_get_reply
unfolding h_get_reply copy_str
h_get_reply-Settles r = elim (Bool-cases (is_kind r.kind reply_nil)) [
  | inl is ↦ inr ([], rw is refl)
  | inr other ↦ elim (Option-cases r.str) [
    | inl e ↦ inl (e, rw other refl)
    | inr (t, e) ↦ inr (t, rw (other, e) refl)
  ]
]

pub push_reply-Settles : Settles never push_reply
unfolding push_reply
push_reply-Settles r = inr (_, refl)

pub integer_reply-Settles : Settles never integer_reply
unfolding integer_reply
integer_reply-Settles r = inr (_, refl)

pub h_del_reply-Settles : Settles never h_del_reply
unfolding h_del_reply
h_del_reply-Settles r = inr (_, refl)

pub exists_reply-Settles : Settles never exists_reply
unfolding exists_reply
exists_reply-Settles r = inr (_, refl)
