-- ===== src/MiniRedis/Interleaved/Alone.antt =====
-- The two accesses of a request against `handle_client`'s round in MiniRedis, and requests one after the other.
use tiny_coro_build_your_own.Common.{
  ◌≡◌, refl, sym, ap, true, false, Bool, Option, none, some, List, [], ◌∷◌, if◌then◌else◌,
}
use tiny_coro_build_your_own.Common.Text.{Bytes}
use tiny_coro_build_your_own.MiniRedis.{
  Store, Answer, execute, insert, same, set_name, get_name, del_name, ok_reply, value_reply,
}
use tiny_coro_build_your_own.MiniRedis.Interleaved.{
  Request, sets, gets, dels, make_entry, search, read_entry, complete,
}

-- The request as `handle_client` serves it when it is alone.
abbrev pub serve : Request → Store → Answer
serve (sets key val) = execute set_name (key ∷ val ∷ [])
serve (gets key) = execute get_name (key ∷ [])
serve (dels key) = execute del_name (key ∷ [])

-- The map after these requests, one after the other, the last first.
abbrev pub replay : List (Request × Bytes) → Store → Store
replay [] db = db
replay ((r, reply) ∷ history) db = (serve r (replay history db)).store

-- Each response is the one that the request has in its place in that order.
abbrev pub Answered : List (Request × Bytes) → Store → Type 0
Answered [] db = Unit
Answered ((r, reply) ∷ history) db =
    (reply ≡ (serve r (replay history db)).reply) × Answered history db

insert_twice :
    (key val : Bytes) (db : Store)
    → insert key (some val) (make_entry key (db key) db) ≡ insert key (some val) db
insert_twice key val db = λ i k. pointwise (db key) k i
  where
    pointwise :
        (old : Option Bytes) (k : Bytes)
        → insert key (some val) (make_entry key old db) k ≡ insert key (some val) db k
    pointwise none k = collapse (same key k)
      where
        collapse :
            (b : Bool)
            → (if b then some val else (if b then some [] else db k))
              ≡ (if b then some val else db k)
        collapse true = refl
        collapse false = refl
    pointwise (some old) k = refl

read_entry-reply : (key : Bytes) (db : Store) → read_entry key (db key) db ≡ value_reply (db key)
read_entry-reply key db = by_entry (db key) refl
  where
    by_entry : (o : Option Bytes) → db key ≡ o → read_entry key o db ≡ value_reply (db key)
    by_entry none e = ap value_reply (sym e)
    by_entry (some old) e = refl

-- The two accesses of a request, with none of another one in between, are the request.
pub complete-search :
    (r : Request) (db : Store)
    → (let (db', entry) = search r db in
        complete r entry db' ≡ ((serve r db).store, (serve r db).reply))
unfolding search complete execute
complete-search (sets key val) db = ap (λ db'. (db', ok_reply)) (insert_twice key val db)
complete-search (gets key) db = ap (λ reply. (db, reply)) (read_entry-reply key db)
complete-search (dels key) db = refl
