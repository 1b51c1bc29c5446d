-- ===== src/Request/Review/Rows.antt =====
-- The request that a decision writes (backend-vexxa/src/modules/link-request/application/
-- link-request.service.ts), and the queries that find it.
use painel_mt_affiliates.Common.{
  ◌≡◌, refl, sym, ap, ◌∙◌, Bool, true, some, List, [], ◌∷◌, map, String, eq_iff, any, find,
  Bool-cases, inl, inr, some_inj, if◌then◌else◌, or_true,
}
use painel_mt_affiliates.Link.Types.{LinkRequest}
use painel_mt_affiliates.Pool.Commit.{request_has_id}

found-id :
    (id : String) (rs : List LinkRequest) (r : LinkRequest)
    → find (request_has_id id) rs ≡ some r
    → r.id ≡ id
found-id id [] r found = absurd (cc)
found-id id (q ∷ qs) r found = elim (Bool-cases (request_has_id id q)) [
  | inl here ↦
      let same : q ≡ r = some_inj q r (rw here at found) in
      sym (ap (λ (x : LinkRequest). x.id) same) ∙ (eq_iff q.id id).0 here
  | inr there ↦ found-id id qs r (rw there at found)
]

pub found-has_id :
    (id : String) (rs : List LinkRequest) (r : LinkRequest)
    → find (request_has_id id) rs ≡ some r
    → request_has_id id r ≡ true
found-has_id id rs r found = (eq_iff r.id id).1 (found-id id rs r found)

written_at :
    (id : String) (test : LinkRequest → Bool) (write : LinkRequest → LinkRequest)
    (rs : List LinkRequest) (r : LinkRequest)
    → find (request_has_id id) rs ≡ some r
    → test (write r) ≡ true
    → any test (map (λ q. if request_has_id id q then write q else q) rs) ≡ true
written_at id test write [] r found holds = absurd (cc)
written_at id test write (q ∷ qs) r found holds = elim (Bool-cases (request_has_id id q)) [
  | inl here ↦
      let same : q ≡ r = some_inj q r (rw here at found) in
      let holds' : test (write q) ≡ true = rw (sym same) at holds in rw (here, holds') refl
  | inr there ↦
      rw there (or_true (test q) _ (written_at id test write qs r (rw there at found) holds))
]

-- The row that was found, once written, passes the test.
pub any-written :
    (id : String) (test : LinkRequest → Bool) (write : LinkRequest → LinkRequest)
    (rs : List LinkRequest) (r : LinkRequest)
    → find (request_has_id id) rs ≡ some r
    → test (write r) ≡ true
    → any test (map (λ q. if request_has_id r.id q then write q else q) rs) ≡ true
any-written id test write rs r found holds =
    rw (found-id id rs r found) (written_at id test write rs r found holds)
