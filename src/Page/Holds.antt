-- ===== src/Page/Holds.antt =====
-- Who holds the slots of the queue: lemmas on the parts of a handler.
use lunefetch.Base.{
  ℕ, ◌+◌, ◌==◌, ◌≡◌, refl, if◌then◌else◌, List, [], ◌∷◌, map, some, Bool, true, false, ◌&&◌,
  contains, filter_by, All, arith, Bool-cases, inl, inr,
}
use lunefetch.Base.Counts.{count, count-append, contains-count, count-Distinct, Distinct}
use lunefetch.Storage.Sql.{first}
use lunefetch.Queue.{Manager, on_done, ends, step}
use lunefetch.Queue.Books.{IsBooked, without, on_done-IsBooked}
use lunefetch.Queue.Slots.{step-slots}
use lunefetch.Page.{Entry, Worker, Page, call, release, remove_first, update_first, is_running}

-- How many goroutines are for a download.
abbrev pub holders : ℕ → List Worker → ℕ
holders x [] = 0
holders x (v ∷ vs) = (if v.id == x then 1 else 0) + holders x vs

abbrev pub is_of : Entry → Worker → Bool
is_of e v = v.id == e.id && v.key == e.key && is_running v

-- Whether a goroutine runs Start for an entry.
abbrev pub runs : Entry → List Worker → Bool
runs e [] = false
runs e (v ∷ vs) = if is_of e v then true else runs e vs

-- Whether the entries have one of the goroutine.
abbrev pub lists : List Entry → ℕ → ℕ → Bool
lists [] id key = false
lists (e ∷ es) id key = if e.id == id && e.key == key then true else lists es id key

abbrev pub IsEntered : List Entry → Worker → Type 0
IsEntered es v = is_running v ≡ true → lists es v.id v.key ≡ true

-- Each slot of the queue is held once: by a start to come, by a goroutine, by a prompt, or by one of
-- `others`; and dp.active has the entries of the goroutines that run Start.
pub record Holds (others : List ℕ) (p : Page) : Type 0 where
  pub distinct : Distinct p.queue.active
  pub owned :
      (x : ℕ)
      → count x p.queue.active
        ≡ count x p.starting + holders x p.workers + count x p.pending + count x others
  pub listed : All (λ e. runs e p.workers ≡ true) p.active
  pub entered : All (IsEntered p.active) p.workers

-- The queue as a call finds it.
abbrev pub fresh : Page → Manager
fresh p = record p.queue { started = [] }

-- A call of the queue that takes and gives back no slot but for starts.
pub call-Holds :
    (f : Manager → Manager) (others : List ℕ) (p : Page)
    → Distinct (f (fresh p)).active
    → IsBooked (λ x. count x p.queue.active) (f (fresh p))
    → Holds others p
    → Holds others (call f p)
call-Holds f others p d b h = record {
  distinct = d;
  owned = λ x. omega (arith, b x, h.owned x, count-append x p.starting (f (fresh p)).started);
  listed = h.listed;
  entered = h.entered;
}

module _ (id : ℕ) (others : List ℕ) (p : Page) (h : Holds (id ∷ others) p) where
  -- A slot that a handler holds is taken, and nobody else holds it.
  held : contains p.queue.active id ≡ true
  held = contains-count id p.queue.active (ground (arith, h.owned id))

  alone : count id p.starting + holders id p.workers + count id p.pending + count id others ≡ 0
  alone = ground (arith, h.owned id, count-Distinct id p.queue.active h.distinct)

  kept :
      (x : ℕ)
      → without id (λ y. count y p.queue.active) x
        ≡ count x p.starting + holders x p.workers + count x p.pending + count x others
  kept x = ground (arith, h.owned x, alone)

  pub release-Holds : (now : ℕ) → Holds others (release now id p)
  unfolding step
  release-Holds now = record {
    distinct = (step-slots now (ends id) (fresh p) h.distinct).2;
    owned = λ x. omega (
      arith,
      on_done-IsBooked now id (fresh p) held refl x,
      kept x,
      count-append x p.starting (on_done now id (fresh p)).started,
    );
    listed = h.listed;
    entered = h.entered;
  }

-- The lists of goroutines and entries.
pub holders-update :
    (t : Worker → Bool) (f : Worker → Worker) (x : ℕ) (vs : List Worker)
    → ((v : Worker) → (f v).id ≡ v.id)
    → holders x (update_first t f vs) ≡ holders x vs
unfolding update_first
holders-update t f x [] same = refl
holders-update t f x (v ∷ vs) same = ground (arith, same v, holders-update t f x vs same)

pub holders-map :
    (f : Worker → Worker) (x : ℕ) (vs : List Worker)
    → ((v : Worker) → (f v).id ≡ v.id)
    → holders x (map f vs) ≡ holders x vs
holders-map f x [] same = refl
holders-map f x (v ∷ vs) same = ground (arith, same v, holders-map f x vs same)

pub runs-map :
    (f : Worker → Worker) (e : Entry) (vs : List Worker)
    → ((v : Worker) → is_of e (f v) ≡ is_of e v)
    → runs e (map f vs) ≡ runs e vs
runs-map f e [] same = refl
runs-map f e (v ∷ vs) same = ground (arith, same v, runs-map f e vs same)

-- The goroutine that is found and taken out.
pub holders-remove :
    (t : Worker → Bool) (v : Worker) (x : ℕ) (vs : List Worker)
    → first t vs ≡ some v
    → holders x vs ≡ holders x (remove_first t vs) + count x (v.id ∷ [])
unfolding first remove_first
holders-remove t v x [] h = cc
holders-remove t v x (u ∷ vs) h = ground (arith, holders-remove t v x vs)

pub count-remove :
    (id x : ℕ) (xs : List ℕ)
    → contains xs id ≡ true
    → count x xs ≡ count x (remove_first (λ y. y == id) xs) + count x (id ∷ [])
unfolding contains remove_first
count-remove id x [] h = cc
count-remove id x (y ∷ ys) h = ground (arith, count-remove id x ys)

-- A goroutine that does not run Start is none of an entry.
pub runs-remove :
    (t : Worker → Bool) (e : Entry) (vs : List Worker)
    → ((v : Worker) → t v ≡ true → is_running v ≡ false)
    → runs e vs ≡ true
    → runs e (remove_first t vs) ≡ true
unfolding remove_first
runs-remove t e [] still h = h
runs-remove t e (v ∷ vs) still h = ground (arith, still v, runs-remove t e vs still)

pub All-filter {ℓ κ} :
    {A : Type 0} (P : A → Type ℓ) (Q : A → Type κ) (t : A → Bool) (xs : List A)
    → ((x : A) → P x → t x ≡ true → Q x)
    → All P xs
    → All Q (filter_by t xs)
unfolding filter_by
All-filter P Q t [] f h = tt
All-filter P Q t (x ∷ xs) f h = elim (Bool-cases (t x)) [
  | inl e ↦ rw (e, filter_by) (f x h.0 e, All-filter P Q t xs f h.1)
  | inr e ↦ rw (e, filter_by) (All-filter P Q t xs f h.1)
]

pub All-remove {ℓ} :
    {A : Type 0} (P : A → Type ℓ) (t : A → Bool) (xs : List A)
    → All P xs
    → All P (remove_first t xs)
unfolding remove_first
All-remove P t [] h = tt
All-remove P t (x ∷ xs) h = elim (Bool-cases (t x)) [
  | inl e ↦ rw (e, remove_first) h.1
  | inr e ↦ rw (e, remove_first) (h.0, All-remove P t xs h.1)
]

pub All-mapped :
    {A B : Type 0} (P : A → Type 0) (Q : B → Type 0) (f : A → B) (xs : List A)
    → ((x : A) → P x → Q (f x))
    → All P xs
    → All Q (map f xs)
All-mapped P Q f [] g h = tt
All-mapped P Q f (x ∷ xs) g h = (g x h.0, All-mapped P Q f xs g h.1)
