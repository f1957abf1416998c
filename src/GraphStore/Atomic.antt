-- ===== src/GraphStore/Atomic.antt =====
-- graph_store.py: `put_relation` writes all of its statements or none, with no other session at
-- work.
use activegraph_surrealdb.Prelude.{String, ◌≡◌, refl, ap, sym, ◌∙◌, Option, none, some, Bool}
use activegraph_surrealdb.Errors.{Error, ErrorClass, Result, ok, err}
use activegraph_surrealdb.Exec.{
  World, pure, fail, lift, gets, raise_if, call, ask, try_else, ◌>>=◌, continue, settle,
}
use activegraph_surrealdb.Platform.{Platform}
use activegraph_surrealdb.Serde.{Relation}
use activegraph_surrealdb.GraphStore.Rows.{VertexRow, GraphServer, GraphDb}
use activegraph_surrealdb.GraphStore.Session.{
  GraphHandle, GraphMethod, ensure_open, select_projection, projection_row, projection_status,
  assert_readable,
}
use activegraph_surrealdb.GraphStore.Relations.{
  Tx, begin_transaction, commit, commit_on, cancel, ensure_placeholder, placeholder_if_missing,
  put_relation_body, put_relation, tx_select_vertex, tx_create_vertex, tx_delete_relation,
  tx_insert_relation,
}
use activegraph_surrealdb.GraphStore.Lifecycle.{at_rest}

module _ ⦃s : GraphServer⦄ (h : GraphHandle) (d : GraphDb s.tables) where
  -- a method that changes nothing, and one that changes nothing if it raises
  abbrev Still : {A : Type 0} → GraphMethod A → Type 0
  Still m = (m (at_rest h d)).1 ≡ at_rest h d

  abbrev Atomic : {A : Type 0} → GraphMethod A → Type 0
  Atomic m = (e : Error) → (m (at_rest h d)).0 ≡ err e → (m (at_rest h d)).1 ≡ at_rest h d

  Still-ask : {A : Type 0} (f : GraphDb s.tables → Result A) → Still (ask f)
  unfolding ask call
  Still-ask f = refl

  Still-lift : {A : Type 0} (r : Result A) → Still (lift r)
  unfolding lift
  Still-lift r = refl

  Still-gets : {A : Type 0} (f : GraphHandle → A) → Still (gets f)
  unfolding gets
  Still-gets f = refl

  Still-raise_if : (b : Bool) (c : ErrorClass) (m : String) → Still (raise_if b c m)
  unfolding raise_if
  Still-raise_if b c m = refl

  Still-pure : {A : Type 0} (a : A) → Still (pure a)
  unfolding pure
  Still-pure a = refl

  Still-fail : (A : Type 0) (e : Error) → Still {A = A} (fail e)
  unfolding fail
  Still-fail A e = refl

  moved :
      {A B : Type 0} (f : A → GraphMethod B) (a : A) (w : World GraphHandle (GraphDb s.tables))
      → w ≡ at_rest h d
      → Atomic (f a)
      → (e : Error) → (f a w).0 ≡ err e
      → (f a w).1 ≡ at_rest h d
  moved f a w same atomic e k =
      ap (λ v. (f a v).1) same ∙ atomic e (ap (λ v. (f a v).0) (sym same) ∙ k)

  continue-Still :
      {A B : Type 0} (f : A → GraphMethod B) (r : Result A)
      (w : World GraphHandle (GraphDb s.tables))
      → w ≡ at_rest h d
      → ((a : A) → Still (f a))
      → (continue r f w).1 ≡ at_rest h d
  continue-Still f (ok a) w same next = ap (λ v. (f a v).1) same ∙ next a
  continue-Still f (err e) w same next = same

  continue-Atomic :
      {A B : Type 0} (f : A → GraphMethod B) (r : Result A)
      (w : World GraphHandle (GraphDb s.tables))
      → w ≡ at_rest h d
      → ((a : A) → Atomic (f a))
      → (e : Error) → (continue r f w).0 ≡ err e
      → (continue r f w).1 ≡ at_rest h d
  continue-Atomic f (ok a) w same next e k = moved f a w same (next a) e k
  continue-Atomic f (err x) w same next e k = same

  Still-bind :
      {A B : Type 0} (m : GraphMethod A) (f : A → GraphMethod B)
      → Still m
      → ((a : A) → Still (f a))
      → Still (m >>= f)
  unfolding ◌>>=◌
  Still-bind m f still next = continue-Still f (m (at_rest h d)).0 (m (at_rest h d)).1 still next

  Atomic-bind :
      {A B : Type 0} (m : GraphMethod A) (f : A → GraphMethod B)
      → Still m
      → ((a : A) → Atomic (f a))
      → Atomic (m >>= f)
  unfolding ◌>>=◌
  Atomic-bind m f still next = continue-Atomic f (m (at_rest h d)).0 (m (at_rest h d)).1 still next

  settle-Atomic :
      {A : Type 0} (handler : Error → GraphMethod A) (r : Result A)
      (w : World GraphHandle (GraphDb s.tables))
      → ((e : Error) → r ≡ err e → w ≡ at_rest h d)
      → ((e : Error) → Still (handler e))
      → (e : Error) → (settle r pure handler w).0 ≡ err e
      → (settle r pure handler w).1 ≡ at_rest h d
  unfolding pure
  settle-Atomic handler (ok a) w same still e k = absurd (cc)
  settle-Atomic handler (err x) w same still e k = ap (λ v. (handler x v).1) (same x refl) ∙ still x

  -- A handler that changes nothing keeps a `try` whole.
  Atomic-try :
      {A : Type 0} (m : GraphMethod A) (handler : Error → GraphMethod A)
      → Atomic m
      → ((e : Error) → Still (handler e))
      → Atomic (try_else m handler pure)
  unfolding try_else
  Atomic-try m handler atomic still =
      settle-Atomic handler (m (at_rest h d)).0 (m (at_rest h d)).1 atomic still

  commit_on-eq :
      (tx : Tx) (reason : Option String)
      → (e : Error) → (commit_on tx reason d).0 ≡ err e
      → (commit_on tx reason d).1 ≡ d
  commit_on-eq tx none e k = absurd (cc)
  commit_on-eq tx (some m) e k = refl

  commit-Atomic : (tx : Tx) → Atomic (commit tx)
  unfolding commit call
  commit-Atomic tx e k = ap (at_rest h) (commit_on-eq tx (s.conflict tx d) e k)

module _ ⦃p : Platform⦄ ⦃s : GraphServer⦄ (h : GraphHandle) (d : GraphDb s.tables) where
  Still-ensure_open : Still h d ensure_open
  unfolding ensure_open
  Still-ensure_open =
      Still-bind h d _ _ (Still-gets h d _) (λ closed. Still-raise_if h d closed _ _)

  Still-projection_row : Still h d projection_row
  unfolding projection_row select_projection
  Still-projection_row =
      Still-bind h d _ _ (Still-gets h d _)
        (λ g. Still-bind h d _ _ (Still-ask h d _) (λ row. Still-lift h d _))

  Still-projection_status : Still h d projection_status
  unfolding projection_status
  Still-projection_status =
      Still-bind h d _ _ Still-ensure_open
        (λ _. Still-bind h d _ _ Still-projection_row (λ row. Still-lift h d _))

  Still-assert_readable : Still h d assert_readable
  unfolding assert_readable
  Still-assert_readable = Still-bind h d _ _ Still-ensure_open (λ _.
      Still-bind h d _ _ Still-projection_status
        (λ status. Still-bind h d _ _ (Still-gets h d _) (λ g. Still-raise_if h d _ _ _)))

  Still-placeholder_if_missing :
      (tx : Tx) (g : GraphHandle) (object_id : String) (row : Option VertexRow)
      → Still h d (placeholder_if_missing tx g object_id row)
  unfolding tx_create_vertex
  Still-placeholder_if_missing tx g object_id none = Still-ask h d _
  Still-placeholder_if_missing tx g object_id (some row) =
      Still-bind h d _ _ (Still-lift h d _) (λ _. Still-pure h d tx)

  Still-ensure_placeholder :
      (tx : Tx) (object_id : String) → Still h d (ensure_placeholder tx object_id)
  unfolding ensure_placeholder tx_select_vertex
  Still-ensure_placeholder tx object_id = Still-bind h d _ _ (Still-gets h d _) (λ g.
      Still-bind h d _ _ (Still-ask h d _) (λ row. Still-placeholder_if_missing tx g object_id row))

  Still-cancel : Still h d cancel
  unfolding cancel try_else ask call pure
  Still-cancel = refl

  put_relation_body-Atomic :
      (rel : Relation p.Value) (tx : Tx) → Atomic h d (put_relation_body rel tx)
  unfolding put_relation_body tx_delete_relation tx_insert_relation
  put_relation_body-Atomic rel tx = Atomic-bind h d _ _ (Still-gets h d _) (λ g.
      Atomic-bind h d _ _ (Still-ensure_placeholder tx rel.source) (λ with_source.
        Atomic-bind h d _ _ (Still-ensure_placeholder with_source rel.target) (λ with_target.
          Atomic-bind h d _ _ (Still-ask h d _) (λ deleted.
            Atomic-bind h d _ _ (Still-lift h d _) (λ encoded.
              Atomic-bind h d _ _ (Still-ask h d _) (λ inserted. commit-Atomic h d inserted))))))

  -- If `put_relation` raises in a quiet world, at whatever step, nothing is written: neither the
  -- placeholders of its endpoints nor the relation, nor is an older relation of that ID deleted.
  pub put_relation_atomic :
      (rel : Relation p.Value) (e : Error)
      → (put_relation rel (at_rest h d)).0 ≡ err e
      → (put_relation rel (at_rest h d)).1 ≡ at_rest h d
  unfolding put_relation begin_transaction
  put_relation_atomic rel = Atomic-bind h d _ _ Still-assert_readable (λ _.
      Atomic-bind h d _ _ (Still-ask h d _) (λ tx.
        Atomic-try h d _ _ (put_relation_body-Atomic rel tx)
          (λ exc. Still-bind h d _ _ Still-cancel (λ _. Still-fail h d _ exc))))
