-- ===== src/Operator/Manager.antt =====
-- cmd/operator/main.go: the reconciler that the operator's manager runs.
use pobj.Prelude.{if◌then◌else◌}
use pobj.Text.{Text, lit, ◌==◌}
use pobj.Exec.{Result}
use pobj.Objectd.{Env}
use pobj.Operator.Pki.{Pki}
use pobj.Operator.Reconcile.{Reconciler}

abbrev image : Env → Text
unfolding ◌==◌
image env =
    let img = env (lit "ENTITY_IMAGE") in
    if img == lit "" then lit "ghcr.io/mchenetz/entity:latest" else img

abbrev new_reconciler : Env → Pki → (Text → Result Text) → Reconciler
new_reconciler env pki parse_quantity = record {
  operator_image = image env;
  pki = pki;
  parse_quantity = parse_quantity;
}
