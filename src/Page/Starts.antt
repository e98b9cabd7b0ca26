-- ===== src/Page/Starts.antt =====
-- The slots through StartDownload and the return of Start, of internal/ui/pages/downloads.go.
use lunefetch.Base.{
  ℕ, ◌≤◌, ◌==◌, ◌≡◌, ◌≢◌, refl, ap, ◌∙◌, if◌then◌else◌, List, [], ◌∷◌, Option, none, some, Bool,
  true, false, ◌&&◌, not, filter_by, All, All-map, arith, Bool-cases, Option-cases, inl, inr,
  String,
}
use lunefetch.Base.Counts.{count-Distinct}
use lunefetch.Storage.Record.{Status, DownloadRecord, ChunkRecord}
use lunefetch.Storage.Sql.{M, Conn, Result, ok, err, first}
use lunefetch.Storage.Chunks.{get_chunks}
use lunefetch.Storage.Downloads.{get_download}
use lunefetch.Page.{
  safe_path, World, Settings, Entry, Worker, Page, at, stored, mark, release, settle, has_entry,
  update_first, is_running, registered, register, new_worker, begin_path, begin_chunks, begin_read,
  start_download, start_returned, dir_of,
}
use lunefetch.Core.Files.{Contents}
use lunefetch.Page.Holds.{
  lists, IsEntered, holders, runs, Holds, release-Holds, holders-update, holders-remove, All-filter,
}

pub at-Holds : (c : Conn) (others : List ℕ) (p : Page) → Holds others p → Holds others (at c p)
at-Holds c others p h = record {
  distinct = h.distinct;
  owned = h.owned;
  listed = h.listed;
  entered = h.entered;
}

pub stored-Holds :
    {A : Type 0} (op : M A) (others : List ℕ) (p : Page)
    → Holds others p
    → Holds others (stored op p)
stored-Holds op others p h = at-Holds _ others p h

pub settle-Holds :
    (now id : ℕ) (status : Status) (others : List ℕ) (p : Page)
    → Holds (id ∷ others) p
    → Holds others (settle now id status p)
settle-Holds now id status others p h =
    release-Holds id others (mark now id status p) (at-Holds _ (id ∷ others) p h) now

-- StartDownload, which a start hands its slot.
module _ (now : ℕ) (others : List ℕ) where
  register-Holds :
      (v : Worker) (p : Page)
      → is_running v ≡ true
      → Holds (v.id ∷ others) p
      → Holds others (register now v p)
  unfolding register
  register-Holds v p running h =
      elim p.shutting_down
        as (λ b. Holds others (
          if b
          then release now v.id p
          else if has_entry p.active v.id
          then release now v.id p
          else mark now v.id Status.downloading (registered v p))) [
            | true ↦ release-Holds v.id others p h now
            | false ↦
                elim (has_entry p.active v.id)
                  as (λ b. Holds others (
                    if b
                    then release now v.id p
                    else mark now v.id Status.downloading (registered v p))) [
                      | true ↦ release-Holds v.id others p h now
                      | false ↦ at-Holds _ others (registered v p) (record {
                        distinct = h.distinct;
                        owned = λ x. omega (arith, h.owned x);
                        listed = (
                          ground (arith, running),
                          All-map (λ e. runs e p.workers ≡ true) _ p.active
                              (λ e r. ground (arith, r)) h.listed,
                        );
                        entered = (
                          λ r. ground arith,
                          All-map (IsEntered p.active) _ p.workers (λ u k r. ground (arith, k r))
                              h.entered,
                        );
                      })
                    ]
          ]

  module _ (w : World) (cfg : Settings) (id : ℕ) where
    begin_path-Holds :
        (r : DownloadRecord) (chunks : List ChunkRecord) (dest : Option String) (p : Page)
        → Holds (id ∷ others) p
        → Holds others (begin_path cfg now id r chunks dest p)
    unfolding begin_path new_worker
    begin_path-Holds r chunks none p h = settle-Holds now id Status.failed others p h
    begin_path-Holds r chunks (some dest) p h =
        register-Holds (new_worker cfg p.next_key id r chunks dest) p refl h

    begin_chunks-Holds :
        (r : DownloadRecord) (o : Result (List ChunkRecord) × Conn) (p : Page)
        → Holds (id ∷ others) p
        → Holds others (begin_chunks w cfg now id r o p)
    unfolding begin_chunks
    begin_chunks-Holds r (err e, c) p h =
        settle-Holds now id Status.failed others (at c p) (at-Holds c _ p h)
    begin_chunks-Holds r (ok [], c) p h =
        settle-Holds now id Status.failed others (at c p) (at-Holds c _ p h)
    begin_chunks-Holds r (ok (x ∷ xs), c) p h =
        begin_path-Holds r (x ∷ xs) (safe_path w (dir_of cfg r.save_dir) r.filename) (at c p)
          (at-Holds c _ p h)

    begin_read-Holds :
        (o : Result (Option DownloadRecord) × Conn) (p : Page)
        → Holds (id ∷ others) p
        → Holds others (begin_read w cfg now id o p)
    unfolding begin_read
    begin_read-Holds (err e, c) p h = release-Holds id others (at c p) (at-Holds c _ p h) now
    begin_read-Holds (ok none, c) p h = release-Holds id others (at c p) (at-Holds c _ p h) now
    begin_read-Holds (ok (some r), c) p h = begin_chunks-Holds r (get_chunks id c) p h

    pub start_download-Holds :
        (p : Page) → Holds (id ∷ others) p → Holds others (start_download w cfg now id p)
    unfolding start_download
    start_download-Holds p h = begin_read-Holds (get_download id p.queue.state) p h

-- The return of Start leaves the entries of the other goroutines alone.
runs-returned :
    (key : ℕ) (failed : Bool) (v : Worker) (e : Entry) (vs : List Worker)
    → first (λ u. is_running u && u.key == key) vs ≡ some v
    → runs e vs ≡ true
    → not (e.id == v.id && e.key == v.key) ≡ true
    → runs e (
        update_first
          (λ u. is_running u && u.key == key)
          (λ u. record u { returned = some failed })
          vs)
      ≡ true
unfolding first update_first
runs-returned key failed v e [] found h other = cc
runs-returned key failed v e (u ∷ vs) found h other =
    elim (Bool-cases (is_running u && u.key == key)) [
      | inl this ↦
          let same : u ≡ v = cc (rw this at found) in
          rw (this, update_first)
            (ground (arith, ap (λ (z : Worker). z.id) same, ap (λ (z : Worker). z.key) same))
      | inr that ↦ rw (that, update_first) (ground (arith, runs-returned key failed v e vs))
    ]

lists-filter :
    (v u : Worker) (es : List Entry)
    → u.id ≢ v.id
    → lists (filter_by (λ e. not (e.id == v.id && e.key == v.key)) es) u.id u.key
      ≡ lists es u.id u.key
unfolding filter_by
lists-filter v u [] ne = refl
lists-filter v u (e ∷ es) ne = ground (arith, lists-filter v u es ne)

others_kept :
    (v : Worker) (es : List Entry) (vs : List Worker)
    → holders v.id vs ≡ 0
    → All (IsEntered es) vs
    → All (IsEntered (filter_by (λ e. not (e.id == v.id && e.key == v.key)) es)) vs
others_kept v es [] none_else h = tt
others_kept v es (u ∷ vs) none_else h =
    (λ r. lists-filter v u es (ground arith) ∙ h.0 r, others_kept v es vs (ground arith) h.1)

holders-found :
    (t : Worker → Bool) (v : Worker) (vs : List Worker) → first t vs ≡ some v → 1 ≤ holders v.id vs
holders-found t v vs found = ground (arith, holders-remove t v v.id vs found)

-- Of the goroutines that still run Start none is for that download, which nobody else holds.
returned-others :
    (key : ℕ) (failed : Bool) (v : Worker) (es : List Entry) (vs : List Worker)
    → first (λ u. is_running u && u.key == key) vs ≡ some v
    → holders v.id vs ≤ 1
    → All (IsEntered es) vs
    → All (IsEntered (filter_by (λ e. not (e.id == v.id && e.key == v.key)) es)) (
        update_first
          (λ u. is_running u && u.key == key)
          (λ u. record u { returned = some failed })
          vs)
unfolding first update_first
returned-others key failed v es [] found le h = cc
returned-others key failed v es (u ∷ vs) found le h =
    elim (Bool-cases (is_running u && u.key == key)) [
      | inl this ↦
          let same : u ≡ v = cc (rw this at found) in
          rw (this, update_first)
            (
              (λ r. cc),
              others_kept v es vs (ground (arith, le, ap (λ (z : Worker). z.id) same)) h.1,
            )
      | inr that ↦
          let rest : first (λ u. is_running u && u.key == key) vs ≡ some v = rw that at found in
          let here : 1 ≤ holders v.id vs = holders-found _ v vs rest in
          rw (that, update_first)
            (
              (λ r. lists-filter v u es (ground (arith, le, here)) ∙ h.0 r),
              returned-others key failed v es vs rest (ground (arith, le)) h.1,
            )
    ]

pub start_returned-Holds :
    (key : ℕ) (failed : Bool) (bytes : Option Contents) (others : List ℕ) (p : Page)
    → Holds others p
    → Holds others (start_returned key failed bytes p)
unfolding start_returned
start_returned-Holds key failed bytes others p h =
    elim (Option-cases (first (λ v. is_running v && v.key == key) p.workers)) [
      | inl nobody ↦ rw (nobody, start_returned) h
      | inr (v, found) ↦
          rw (found, start_returned)
            (record {
              distinct = h.distinct;
              owned = λ x. omega (
                arith,
                h.owned x,
                holders-update (λ u. is_running u && u.key == key)
                    (λ u. record u { returned = some failed }) x p.workers (λ u. refl),
              );
              listed =
                  All-filter (λ e. runs e p.workers ≡ true) _ _ p.active
                    (λ e r other. runs-returned key failed v e p.workers found r other) h.listed;
              entered =
                  returned-others key failed v p.active p.workers found
                    (ground (arith, h.owned v.id, count-Distinct v.id p.queue.active h.distinct))
                    h.entered;
            })
    ]
