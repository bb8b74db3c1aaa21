-- ===== src/MiniRedis/Commands.antt =====
-- Commands that follow one another on one map.
use tiny_coro_build_your_own.Common.{
  ◌≡◌, refl, sym, ap, ◌∙◌, Bool, true, false, none, some, List, [], ◌∷◌, arith, if◌then◌else◌,
}
use tiny_coro_build_your_own.Common.Text.{Bytes}
use tiny_coro_build_your_own.MiniRedis.{
  Store, execute, upper, same, insert, set_name, get_name, del_name, value_reply, count_reply,
  nil_reply,
}

-- The command's name, in letters of either case, is this one.
abbrev pub Names : Bytes → Bytes → Type 0
Names cmd name = upper cmd ≡ name

get-replies :
    (get key : Bytes) (db : Store)
    → Names get get_name
    → (execute get (key ∷ []) db).reply ≡ value_reply (db key)
unfolding execute
get-replies get key db e = rw e

set-stores :
    (set key val : Bytes) (args : List Bytes) (db : Store)
    → Names set set_name
    → (execute set (key ∷ val ∷ args) db).store ≡ insert key (some val) db
unfolding execute
set-stores set key val args db e = rw e

del-answers :
    (del key : Bytes) (db : Store)
    → Names del del_name
    → ((execute del (key ∷ []) db).store ≡ insert key none db)
      × ((execute del (key ∷ []) db).reply ≡ count_reply (db key))
unfolding execute
del-answers del key db e = (rw e, rw e)

pub same_refl : (key : Bytes) → same key key ≡ true
same_refl [] = refl
same_refl (c ∷ key) = ground (arith, same_refl key)

erased : (key : Bytes) (db : Store) → insert key none db key ≡ none
erased key db = ap (λ b. if b then none else db key) (same_refl key)

-- A GET after a SET replies with the value if it is for the same key, and else as it would have
-- without the SET; the command names may be in letters of either case.
pub get-set :
    (set get key val other : Bytes) (args : List Bytes) (db : Store)
    → Names set set_name
    → Names get get_name
    → (execute get (other ∷ []) (execute set (key ∷ val ∷ args) db).store).reply
      ≡ (if same key other then value_reply (some val) else (execute get (other ∷ []) db).reply)
get-set set get key val other args db s g =
    get-replies get other (execute set (key ∷ val ∷ args) db).store g
    ∙ ap (λ (f : Store). value_reply (f other)) (set-stores set key val args db s)
    ∙ stored (same key other) (sym (get-replies get other db g))
  where
    stored :
        (b : Bool) {reply : Bytes}
        → value_reply (db other) ≡ reply
        → value_reply (if b then some val else db other)
          ≡ (if b then value_reply (some val) else reply)
    stored true e = refl
    stored false e = e

-- After a DEL, which replies whether the key was there, a GET of the key replies that there is no
-- value, and a second DEL that there was none.
pub del-get :
    (del get key : Bytes) (db : Store)
    → Names del del_name
    → Names get get_name
    → (let a = execute del (key ∷ []) db in
        (a.reply ≡ count_reply (db key))
        × ((execute get (key ∷ []) a.store).reply ≡ nil_reply)
        × ((execute del (key ∷ []) a.store).reply ≡ count_reply none))
del-get del get key db d g =
    let gone = ap (λ (f : Store). f key) (del-answers del key db d).0 ∙ erased key db in
    (
      (del-answers del key db d).1,
      get-replies get key (execute del (key ∷ []) db).store g ∙ ap value_reply gone,
      (del-answers del key (execute del (key ∷ []) db).store d).1 ∙ ap count_reply gone,
    )
