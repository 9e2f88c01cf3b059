-- ===== src/Store/Keeps.antt =====
-- Actions that leave what is committed as it is: reads, and writes to the open transaction. A write
-- outside a transaction may leave the noted fetches as they are.
use cartesi_rollups_hl_graph.Base.{
  ◌≡◌, refl, ◌∙◌, Bool, true, false, List, [], ◌∷◌, Bool-cases, inl, inr, if◌then◌else◌, Result, ok,
  err, Exec, ◌>>=◌, proceed, pure, lift, arith,
}
use cartesi_rollups_hl_graph.Store.{
  Db, Tables, Context, background, with_transaction, query, exec, for_each, next_fault, tick,
  write_committed,
}

-- What a context leaves as it is of the committed tables.
abbrev pub Same : Context → Tables → Tables → Type 0
Same background t u = u.fetches ≡ t.fetches
Same with_transaction t u = u ≡ t

Same-refl : (ctx : Context) (t : Tables) → Same ctx t t
Same-refl background t = refl
Same-refl with_transaction t = refl

Same-trans : (ctx : Context) (t u v : Tables) → Same ctx u v → Same ctx t u → Same ctx t v
Same-trans background t u v p q = p ∙ q
Same-trans with_transaction t u v p q = p ∙ q

abbrev pub Keeps : Context → {A : Type 0} → Exec Db A → Type 0
Keeps ctx m = (db : Db) → Same ctx db.committed (m db).1.committed

-- A write that is no write to the noted fetches.
abbrev pub Spares : Tables → Result Tables → Type 0
Spares t (ok u) = u.fetches ≡ t.fetches
Spares t (err e) = Unit {0}

pub pure-Keeps : (ctx : Context) {A : Type 0} (a : A) → Keeps ctx (pure a)
pure-Keeps ctx a db = Same-refl ctx db.committed

pub lift-Keeps : (ctx : Context) {A : Type 0} (r : Result A) → Keeps ctx (lift r)
lift-Keeps ctx r db = Same-refl ctx db.committed

pub query-Keeps : (ctx : Context) {A : Type 0} (f : Tables → Result A) → Keeps ctx (query f)
unfolding query
query-Keeps ctx f db = elim (Bool-cases (next_fault db.faults)) [
  | inl e ↦ rw e (Same-refl ctx db.committed)
  | inr e ↦ rw e (Same-refl ctx db.committed)
]

write-Spares :
    (db : Db) (r : Result Tables)
    → Spares db.committed r
    → (write_committed r (tick db)).1.committed.fetches ≡ db.committed.fetches
unfolding write_committed
write-Spares db (ok t) h = h
write-Spares db (err e) h = refl

pub pending-Keeps : (f : Tables → Result Tables) → Keeps with_transaction (exec with_transaction f)
unfolding exec
pending-Keeps f db = ground arith

pub exec-Keeps :
    (ctx : Context) (f : Tables → Result Tables)
    → ((t : Tables) → Spares t (f t))
    → Keeps ctx (exec ctx f)
unfolding exec
exec-Keeps background f h db = elim (Bool-cases (next_fault db.faults)) [
  | inl e ↦ rw e refl
  | inr e ↦ rw e (write-Spares db (f db.committed) (h db.committed))
]
exec-Keeps with_transaction f h db = pending-Keeps f db

pub >>=-Keeps :
    (ctx : Context) {A B : Type 0} (m : Exec Db A) (f : A → Exec Db B)
    → Keeps ctx m
    → ((a : A) → Keeps ctx (f a))
    → Keeps ctx (m >>= f)
>>=-Keeps ctx {A} {B} m f km kf db =
    Same-trans ctx db.committed (m db).1.committed _ (on (m db).0 (m db).1) (km db)
  where
    on : (r : Result A) (d : Db) → Same ctx d.committed (proceed r f d).1.committed
    on (ok a) d = kf a d
    on (err e) d = Same-refl ctx d.committed

pub if-Keeps :
    (ctx : Context) {A : Type 0} (b : Bool) (m n : Exec Db A)
    → Keeps ctx m
    → Keeps ctx n
    → Keeps ctx (if b then m else n)
if-Keeps ctx true m n km kn = km
if-Keeps ctx false m n km kn = kn

pub for_each-Keeps :
    (ctx : Context) {A : Type 0} (f : A → Exec Db (Unit {0})) (xs : List A)
    → ((a : A) → Keeps ctx (f a))
    → Keeps ctx (for_each f xs)
unfolding for_each
for_each-Keeps ctx f [] k = pure-Keeps ctx tt
for_each-Keeps ctx f (a ∷ xs) k =
    >>=-Keeps ctx (f a) (λ _. for_each f xs) (k a) (λ _. for_each-Keeps ctx f xs k)
