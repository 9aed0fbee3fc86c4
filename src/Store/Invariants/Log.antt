-- ===== src/Store/Invariants/Log.antt =====
-- internal/store/audit.go: the log is bounded and numbered without gaps, and an entry, once written,
-- is not changed.
use carrel.Prelude.{
  ℕ, zero, suc, ◌+◌, ◌-◌, ◌≤◌, ◌≡◌, refl, ap, sym, ◌∙◌, inl, inr, Bool-cases, List, [], ◌∷◌, ◌++◌,
  length, drop, length-append, length-drop, arith,
}
use carrel.Store.Types.{State, AuditEntry, max_audit_entries}
use carrel.Store.Base.{Env, IsLawful, World, Store, append_audit}
use carrel.Store.Service.{Request, handle, serve}
use carrel.Store.Effects.{AuditStep, quiet, logged}
use carrel.Store.Effects.Requests.{handle-Effect}

-- The entries are numbered n + 1, n + 2 and so on.
unfoldable pub AreNumbered : ℕ → List AuditEntry → Type 0
AreNumbered n [] = Unit
AreNumbered n (e ∷ es) = (e.seq ≡ n + 1) × AreNumbered (n + 1) es

-- At most 10,000 entries, numbered without gaps up to the counter.
pub record IsLog (audit : List AuditEntry) (audit_seq : ℕ) : Type 0 where
  pub bound : length audit ≤ max_audit_entries
  pub counted : length audit ≤ audit_seq
  pub numbered : AreNumbered (audit_seq - length audit) audit

-- The last entries of a list, as many as a number says.
unfoldable pub newest : ℕ → List AuditEntry → List AuditEntry
newest n es = drop (length es - n) es

-- One log is another with entries added, as many as the counter moved, cut to the newest 10,000.
pub record IsContinuedBy (old : List AuditEntry) (seq : ℕ) (new : List AuditEntry) (seq' : ℕ)
    : Type 0 where
  pub more : List AuditEntry
  pub counted : seq' ≡ seq + length more
  pub continued : new ≡ newest max_audit_entries (old ++ more)

AreNumbered-append :
    (n : ℕ) (es : List AuditEntry) (e : AuditEntry)
    → AreNumbered n es
    → e.seq ≡ n + length es + 1
    → AreNumbered n (es ++ e ∷ [])
unfolding AreNumbered
AreNumbered-append n [] e h q = (omega arith, tt)
AreNumbered-append n (x ∷ es) e (g, h) q = (g, AreNumbered-append (n + 1) es e h (omega arith))

AreNumbered-drop :
    (k n : ℕ) (es : List AuditEntry)
    → k ≤ length es
    → AreNumbered n es
    → AreNumbered (n + k) (drop k es)
unfolding AreNumbered
AreNumbered-drop zero n es le h = let q : n + 0 ≡ n = omega arith in rw q h
AreNumbered-drop (suc k) n [] le h = absurd (omega arith)
AreNumbered-drop (suc k) n (x ∷ es) le (g, h) =
    let q : n + suc k ≡ n + 1 + k = omega arith in
    rw q (AreNumbered-drop k (n + 1) es (omega arith) h)

append_audit-IsLog :
    (now : ℕ) (e : AuditEntry) (st : State)
    → IsLog st.audit st.audit_seq
    → IsLog (append_audit now e st).audit (append_audit now e st).audit_seq
unfolding append_audit
append_audit-IsLog now e st h =
    let stamped : AuditEntry = record e {
      seq = st.audit_seq + 1;
      at = carrel.Prelude.if◌then◌else◌ (carrel.Store.Types.is_zero e.at) now e.at;
    } in
    let grown = st.audit ++ stamped ∷ [] in
    let k = length grown - max_audit_entries in
    let size : length grown ≡ length st.audit + 1 = length-append st.audit (stamped ∷ []) in
    let left : length (drop k grown) ≡ length grown - k = length-drop k grown in
    let base : st.audit_seq - length st.audit + k ≡ st.audit_seq + 1 - length (drop k grown) =
      omega (arith, h.bound, h.counted) in
    record {
      bound = omega (arith, h.bound);
      counted = omega (arith, h.counted);
      numbered = rw (← base) (
          AreNumbered-drop k (st.audit_seq - length st.audit) grown (omega arith) (
            AreNumbered-append (st.audit_seq - length st.audit) st.audit stamped h.numbered
              (omega (arith, h.counted))));
    }

AuditStep-IsLog :
    {st st' : State}
    → AuditStep st st'
    → IsLog st.audit st.audit_seq
    → IsLog st'.audit st'.audit_seq
AuditStep-IsLog (quiet a n) h = rw (a, n) h
AuditStep-IsLog {st} (logged now e a n) h = rw (a, n) (append_audit-IsLog now e st h)

-- After any sequence of requests the log has at most 10,000 entries, numbered without gaps up to the
-- counter, when it was so before.
pub serve-IsLog :
    (env : Env) (laws : IsLawful env) (calls : List (World × Request)) (s : Store)
    → IsLog s.state.audit s.state.audit_seq
    → IsLog (serve env calls s).state.audit (serve env calls s).state.audit_seq
unfolding serve
serve-IsLog env laws [] s h = h
serve-IsLog env laws ((w, r) ∷ calls) s h =
    serve-IsLog env laws calls (handle env w r s)
      (AuditStep-IsLog (handle-Effect env laws w r s).audit h)

append-nil : (xs : List AuditEntry) → xs ++ [] ≡ xs
append-nil [] = refl
append-nil (x ∷ xs) = ap (λ t. x ∷ t) (append-nil xs)

append_assoc : (xs ys zs : List AuditEntry) → (xs ++ ys) ++ zs ≡ xs ++ (ys ++ zs)
append_assoc [] ys zs = refl
append_assoc (x ∷ xs) ys zs = ap (λ t. x ∷ t) (append_assoc xs ys zs)

drop-drop : (k j : ℕ) (xs : List AuditEntry) → drop j (drop k xs) ≡ drop (k + j) xs
drop-drop zero j xs = let q : 0 + j ≡ j = omega arith in rw q refl
drop-drop (suc k) zero [] = let q : suc k + 0 ≡ suc k = omega arith in rw q refl
drop-drop (suc k) (suc j) [] = let q : suc k + suc j ≡ suc (k + suc j) = omega arith in rw q refl
drop-drop (suc k) j (x ∷ xs) =
    let q : suc k + j ≡ suc (k + j) = omega arith in rw q (drop-drop k j xs)

drop-append_le :
    (k : ℕ) (xs ys : List AuditEntry) → k ≤ length xs → drop k xs ++ ys ≡ drop k (xs ++ ys)
drop-append_le zero xs ys h = refl
drop-append_le (suc k) [] ys h = absurd (omega arith)
drop-append_le (suc k) (x ∷ xs) ys h = drop-append_le k xs ys (omega arith)

-- Entries that are older than the newest ones do not matter when more are added.
newest-append :
    (n : ℕ) (xs ys : List AuditEntry) → newest n (newest n xs ++ ys) ≡ newest n (xs ++ ys)
unfolding newest
newest-append n xs ys =
    let k = length xs - n in
    let j = length (drop k xs ++ ys) - n in
    let e : drop k xs ++ ys ≡ drop k (xs ++ ys) = drop-append_le k xs ys (omega arith) in
    let q : k + j ≡ length (xs ++ ys) - n =
      omega (arith, length-append xs ys, length-append (drop k xs) ys, length-drop k xs) in
    ap (λ t. drop j t) e ∙ drop-drop k j (xs ++ ys) ∙ ap (λ i. drop i (xs ++ ys)) q

IsContinuedBy-trans :
    (a b c : List AuditEntry) (i j k : ℕ)
    → IsContinuedBy a i b j
    → IsContinuedBy b j c k
    → IsContinuedBy a i c k
IsContinuedBy-trans a b c i j k h h' = record {
  more = h.more ++ h'.more;
  counted = omega (arith, h.counted, h'.counted, length-append h.more h'.more);
  continued =
      h'.continued
      ∙ ap (λ t. newest max_audit_entries (t ++ h'.more)) h.continued
      ∙ newest-append max_audit_entries (a ++ h.more) h'.more
      ∙ ap (newest max_audit_entries) (append_assoc a h.more h'.more);
}

unchanged-IsContinuedBy :
    (a : List AuditEntry) (n : ℕ) → length a ≤ max_audit_entries → IsContinuedBy a n a n
unfolding newest
unchanged-IsContinuedBy a n h =
    let q : length (a ++ []) - max_audit_entries ≡ 0 = omega (arith, length-append a []) in
    record {
      more = [];
      counted = omega arith;
      continued = sym (ap (λ k. drop k (a ++ [])) q ∙ append-nil a);
    }

AuditStep-IsContinuedBy :
    {st st' : State}
    → AuditStep st st'
    → length st.audit ≤ max_audit_entries
    → IsContinuedBy st.audit st.audit_seq st'.audit st'.audit_seq
unfolding newest append_audit
AuditStep-IsContinuedBy {st} (quiet a n) h =
    rw (a, n) (unchanged-IsContinuedBy st.audit st.audit_seq h)
AuditStep-IsContinuedBy {st} (logged now e a n) h = record { more = _; counted = n; continued = a }

-- After any sequence of requests the log is the log before with as many entries added at its end as
-- the counter moved, cut to the newest 10,000, when the log before was numbered and within its bound.
pub serve-IsContinuedBy :
    (env : Env) (laws : IsLawful env) (calls : List (World × Request)) (s : Store)
    → IsLog s.state.audit s.state.audit_seq
    → IsContinuedBy s.state.audit s.state.audit_seq
        (serve env calls s).state.audit
        (serve env calls s).state.audit_seq
unfolding serve
serve-IsContinuedBy env laws [] s h =
    unchanged-IsContinuedBy s.state.audit s.state.audit_seq h.bound
serve-IsContinuedBy env laws ((w, r) ∷ calls) s h =
    let step = (handle-Effect env laws w r s).audit in
    IsContinuedBy-trans _ _ _ _ _ _ (AuditStep-IsContinuedBy step h.bound)
      (serve-IsContinuedBy env laws calls (handle env w r s) (AuditStep-IsLog step h))
