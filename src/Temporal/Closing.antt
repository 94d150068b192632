-- ===== src/Temporal/Closing.antt =====
-- temporal/__init__.py and core/__init__.py: belief before and after it is closed.
use epistemos.Common.{
  ℕ, ◌≡◌, refl, sym, ap, ◌∙◌, Bool, true, false, none, some, ◌&&◌, ltb, inl, inr, Bool-cases,
}
use epistemos.Result.{ok, bind-ok, ok_injective}
use epistemos.Json.{Json, null, Fields, is_null}
use epistemos.Json.Dict.{get, item, item-ok, or_null, put, find, find-put}
use epistemos.Host.{Host, parse_instant}
use epistemos.Ledger.{LedgerRecord}
use epistemos.Engine.Change.{close_belief}
use epistemos.Temporal.{or_now, believed_at, instant_in_interval, at_or_after, before}

-- The belief was open, and the change writes its end.
pub record IsClosing (r : LedgerRecord) (o o' : Fields) : Type 0 where
  pub was_open : get "tx_to" o ≡ null
  pub ended : get "tx_to" o' ≡ get "tx_to" r.payload
  pub began : get "tx_from" o' ≡ get "tx_from" o

null_of : (j : Json) → is_null j ≡ true → j ≡ null
null_of null e = refl
null_of (Json.bool b) e = cc
null_of (Json.num n) e = cc
null_of (Json.negative n) e = cc
null_of (Json.float n) e = cc
null_of (Json.str s) e = cc
null_of (Json.arr xs) e = cc
null_of (Json.obj d) e = cc

drop_true : (a c : Bool) → ok (a && c) ≡ ok ((a && true) && c)
drop_true true c = refl
drop_true false c = refl

put_end :
    (o : Fields) (tx_to status : Json)
    → find "tx_to" (put "status" status (put "tx_to" tx_to o)) ≡ some tx_to
put_end o tx_to status =
    find-put "status" "tx_to" status (put "tx_to" tx_to o) ∙ find-put "tx_to" "tx_to" tx_to o

put_start :
    (o : Fields) (tx_to status : Json)
    → find "tx_from" (put "status" status (put "tx_to" tx_to o)) ≡ find "tx_from" o
put_start o tx_to status =
    find-put "status" "tx_from" status (put "tx_to" tx_to o) ∙ find-put "tx_to" "tx_from" tx_to o

close_belief-IsClosing :
    (r : LedgerRecord) (o o' : Fields) → close_belief r o ≡ ok (some o') → IsClosing r o o'
unfolding close_belief
close_belief-IsClosing r o o' e = elim (Bool-cases (is_null (get "tx_to" o))) [
  | inl opened ↦
      let (tx_to, at, rest) = bind-ok (item "tx_to" r.payload) _ (rw opened at e) in
      let (status, _, last) = bind-ok (item "status" r.payload) _ rest in
      let o'_is : put "status" status (put "tx_to" tx_to o) ≡ o' = cc last in
      record {
        was_open = null_of (get "tx_to" o) opened;
        ended =
            ap (get "tx_to") (sym o'_is)
            ∙ ap or_null (put_end o tx_to status ∙ sym (item-ok "tx_to" r.payload tx_to at));
        began = ap (get "tx_from") (sym o'_is) ∙ ap or_null (put_start o tx_to status);
      }
  | inr closed ↦ cc (rw closed at e)
]

module _ (h : Host) where
  -- Closing an open belief leaves what the system believed before the closing: at every instant, the
  -- closed fact was believed exactly if the open one was and the instant is before the end that the
  -- record gives, where the instants can be read.
  pub believed_at-close_belief :
      (r : LedgerRecord) (o o' : Fields) (now : ℕ) (instant : Json) (t end : ℕ) (b : Bool)
      → close_belief r o ≡ ok (some o')
      → or_now h now instant ≡ ok t
      → parse_instant h (get "tx_to" r.payload) ≡ ok (some end)
      → believed_at h now o instant ≡ ok b
      → believed_at h now o' instant ≡ ok (b && ltb t end)
  unfolding believed_at instant_in_interval parse_instant
  believed_at-close_belief r o o' now instant t end b closed at ends was =
      let c = close_belief-IsClosing r o o' closed in
      let (when, at', rest) = bind-ok (or_now h now instant) _ was in
      let (lo, began, rest') = bind-ok (parse_instant h (get "tx_from" o)) _ rest in
      let (hi, ended, last) = bind-ok (parse_instant h (get "tx_to" o)) _ rest' in
      let t_is : t ≡ when = ok_injective (sym at ∙ at') in
      let hi_is : hi ≡ none = ok_injective (sym ended ∙ ap (parse_instant h) c.was_open) in
      let b_is : (at_or_after lo t && true) ≡ b =
        ap (λ i. at_or_after lo i && true) t_is
        ∙ ap (λ x. at_or_after lo when && before x when) (sym hi_is)
        ∙ ok_injective last in
      rw (at, c.began, c.ended, began, ends, sym b_is) (drop_true (at_or_after lo t) (ltb t end))
