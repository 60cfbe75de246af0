-- ===== src/Ipc/Saved.antt =====
-- The state file of src/core.rs through a request to src/ipc.rs.
use tarvaultsync.Prelude.{
  ◌≡◌, refl, sym, subst, ◌⊎◌, inl, inr, Option, none, some, Bool, true, false, ◌==◌, ltb, length,
  nat_eq, arith, All, Bool-cases,
}
use tarvaultsync.Prelude.Text.{Text, text_eq}
use tarvaultsync.Core.{Bytes, Event, outcome_eq, secret_type_eq}
use tarvaultsync.Core.Labels.{safe_label}
use tarvaultsync.Core.Engine.{Parts, Engine}
use tarvaultsync.Core.Engine.Saved.{Spares, IsReliable, IsSaved}
use tarvaultsync.Core.Engine.Handled.{
  Call, syncing, enabling, acknowledging, called, called-IsSaved,
}
use tarvaultsync.Ipc.{
  Request, status_request, events_request, trigger_request, acknowledge_request, enable_request,
  respond, handle,
}

module _ {W : Type 0} (p : Parts W) (decode : Bytes → Option Event) (is_utf8 : Bytes → Bool) where
  -- The engine as it was, or after one call
  abbrev Calls : Engine W → Engine W → Type 0
  Calls e e' = (e' ≡ e) ⊎ ((c : Call) × (e' ≡ called p c e))

  called_if :
      (token t : Text) (r : Request) (c : Call) (e : Engine W)
      → ((t == token) ≡ true → (respond p decode is_utf8 token (some r) e).1 ≡ called p c e)
      → ((t == token) ≡ false → (respond p decode is_utf8 token (some r) e).1 ≡ e)
      → Calls e (respond p decode is_utf8 token (some r) e).1
  called_if token t r c e granted refused = elim (Bool-cases (t == token)) [
    | inl k ↦ inr (c, granted k)
    | inr k ↦ inl (refused k)
  ]

  respond-Calls :
      (token : Text) (o : Option Request) (e : Engine W)
      → Calls e (respond p decode is_utf8 token o e).1
  unfolding respond called
  respond-Calls token none e = inl refl
  respond-Calls token (some (status_request t)) e = inl (ground arith)
  respond-Calls token (some (events_request t)) e = inl (ground arith)
  respond-Calls token (some (trigger_request t id)) e =
      called_if token t (trigger_request t id) (syncing id) e (λ k. rw k refl) (λ k. rw k refl)
  respond-Calls token (some (acknowledge_request t id)) e =
      called_if token t (acknowledge_request t id) (acknowledging id) e (λ k. rw k refl)
        (λ k. rw k refl)
  respond-Calls token (some (enable_request t id)) e =
      called_if token t (enable_request t id) (enabling id) e (λ k. rw k refl) (λ k. rw k refl)

  -- Whatever line the handler is given, if a restart would load the state in memory, then it would do
  -- so after the response; with safe ids in the configuration and no target that writes the state
  -- file.
  pub handle-IsSaved :
      (token : Text) (parse : Bytes → Option Request) (line : Bytes) (e : Engine W)
      → IsReliable p
      → All (λ b. safe_label b.id ≡ true) p.config.bindings
      → All (Spares p) p.config.bindings
      → IsSaved p e
      → IsSaved p (handle p decode is_utf8 token parse line e).1
  unfolding handle
  handle-IsSaved token parse line e laws ids spares h = elim (Bool-cases (ltb 4096 (length line))) [
    | inl l ↦ rw l h
    | inr l ↦ rw l (elim (respond-Calls token (parse line) e) [
      | inl q ↦ subst (IsSaved p) (sym q) h
      | inr (c, q) ↦ subst (IsSaved p) (sym q) (called-IsSaved p laws c e ids spares h)
    ])
  ]
