-- ===== src/Session/Table/Once.antt =====
-- src/session/mod.rs: the reader of a session is handed out once.
use rust_xhttp.Common.{
  ℕ, zero, suc, ◌≡◌, ◌≢◌, refl, ap, sym, subst, ◌∙◌, true, List, [], ◌∷◌, Option, none, some, Bytes,
  get_elem?, Option-cases, inl, inr,
}
use rust_xhttp.Session.Table.{Session, SessionTable, DownlinkReader, modify, abort_reaper, upsert}
use rust_xhttp.Session.Table.Operations.{
  OpenDownload, opened, conflict, capacity, take_reader, connect, open_upserted, open_download,
  Action, run,
}
use rust_xhttp.Session.Table.Stays.{
  Taken, Keeps, modify-Stays, abort_reaper-Keeps, upsert-Keeps, run-Keeps,
}

-- What an open hands out was there, and is taken then.
abbrev Hands : SessionTable → SessionTable × OpenDownload → Type 0
Hands t (t', opened serial reader) = (Taken serial t.sessions → ⊥) × Taken serial t'.sessions
Hands t (t', conflict) = Unit {0}
Hands t (t', capacity) = Unit {0}

Hands-from :
    (t t' : SessionTable) (r : SessionTable × OpenDownload) → Keeps t t' → Hands t' r → Hands t r
Hands-from t t' (u, opened serial reader) keeps (fresh, taken) =
    ((λ h. fresh (keeps serial h)), taken)
Hands-from t t' (u, conflict) keeps h = tt
Hands-from t t' (u, capacity) keeps h = tt

get_elem?-modify :
    (f : Session → Session) (sessions : List Session) (i : ℕ) (s : Session)
    → get_elem? sessions i ≡ some s
    → get_elem? (modify f i sessions) i ≡ some (f s)
get_elem?-modify f [] i s h = cc
get_elem?-modify f (x ∷ xs) zero s h = cc
get_elem?-modify f (x ∷ xs) (suc i) s h = get_elem?-modify f xs i s h

take_reader-Hands :
    (t : SessionTable) (serial : ℕ) (s : Option Session)
    → get_elem? t.sessions serial ≡ s
    → Hands t (take_reader t serial s)
unfolding take_reader
take_reader-Hands t serial none e = tt
take_reader-Hands t serial (some s) e = elim (Option-cases s.downlink_reader) [
  | inl gone ↦ rw gone tt
  | inr (reader, there) ↦ rw there (
    fresh reader there,
    (
      record s { downlink_reader = none },
      get_elem?-modify (λ x. record x { downlink_reader = none }) t.sessions serial s e,
      refl,
    ),
  )
]
  where
    same : {a b : Session} → some a ≡ some b → a ≡ b
    same e' = cc

    fresh :
        (reader : DownlinkReader) → s.downlink_reader ≡ some reader → Taken serial t.sessions → ⊥
    fresh reader there (x, found, gone) =
        let both : some reader ≡ none =
          sym there ∙ ap (λ (y : Session). y.downlink_reader) (same (sym e ∙ found)) ∙ gone in
        cc

open_download-Hands : (t : SessionTable) (id : Bytes) → Hands t (open_download t id)
unfolding open_download open_upserted
open_download-Hands t id = go (upsert t id true) (upsert-Keeps t id true)
  where
    go : (r : SessionTable × Option ℕ) → Keeps t r.0 → Hands t (open_upserted r)
    go (t0, none) keeps = tt
    go (t0, some serial) keeps =
        let t1 = connect t0 serial in
        let t2 = abort_reaper t1 serial in
        let s = get_elem? t2.sessions serial in
        Hands-from t t2 (take_reader t2 serial s)
          (λ n h. abort_reaper-Keeps t1 serial n (
            modify-Stays (λ x. record x { fully_connected = true }) serial t0.sessions (λ x e. e) n
              (keeps n h)))
          (take_reader-Hands t2 serial s refl)

-- When a download has been opened and the reader of a session handed out, no later download is handed
-- the reader of that session, whatever happens to the table in between.
pub open_download-once :
    (t : SessionTable) (id : Bytes) (serial : ℕ) (reader : DownlinkReader) (actions : List Action)
    (id' : Bytes) (reader' : DownlinkReader)
    → (open_download t id).1 ≡ opened serial reader
    → (open_download (run (open_download t id).0 actions) id').1 ≢ opened serial reader'
open_download-once t id serial reader actions id' reader' e e' =
    let t1 = (open_download t id).0 in
    let t2 = run t1 actions in
    let first : Hands t (t1, opened serial reader) =
      subst (λ o. Hands t (t1, o)) e (open_download-Hands t id) in
    let second : Hands t2 ((open_download t2 id').0, opened serial reader') =
      subst (λ o. Hands t2 ((open_download t2 id').0, o)) e' (open_download-Hands t2 id') in
    second.0 (run-Keeps t1 actions serial first.1)
