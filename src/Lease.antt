-- ===== src/Lease.antt =====
-- src/plugins/lease.plugin.ts: the commands that its methods give to `findOneAndUpdate`. The clock,
-- in milliseconds, is an argument.
pub mod Laws
mod Tests
use mongokit.Prelude.{
  ℕ, ◌+◌, String, Bool, true, false, not, Option, none, some, List, [], ◌∷◌, ltb, str_eq,
  if◌then◌else◌, Outcome, returns, throws, ◌>>◌, throw_if,
}
use mongokit.Js.Object.{Object, put}
use mongokit.Js.Value.{ℤ, pos, Value, str, date, arr, objects}
use mongokit.Mongo.{operator}
use mongokit.Mongo.Server.{Update}

pub record LeaseOptions : Type 0 where
  pub status_field : String
  pub leased_by_field : String
  pub lease_expires_at_field : String
  pub pending_status : String
  pub processing_status : String
  pub done_status : String
  pub sort : Object ℤ

abbrev pub default_options : LeaseOptions
default_options = record {
  status_field = "status";
  leased_by_field = "leasedBy";
  lease_expires_at_field = "leaseExpiresAt";
  pending_status = "pending";
  processing_status = "processing";
  done_status = "done";
  sort = ("createdAt", pos 1) ∷ [];
}

pub data LeaseError : Type 0 where
  lease_for_not_positive leased_by_empty : LeaseError

-- A `findOneAndUpdate` with `returnDocument: 'after'`.
pub record LeaseCommand : Type 0 where
  pub query : Object Value
  pub update : Update
  pub sort : Option (Object ℤ)

abbrev pub or_status : Option String → String → String
or_status none d = d
or_status (some s) d = s

module _ (names : LeaseOptions) where
  open names use {
    status_field, leased_by_field, lease_expires_at_field, pending_status, processing_status,
    done_status,
  }

  -- Pending, or leased by someone whose lease is over.
  unfoldable pub claim_filter : Object Value → ℕ → Object Value
  claim_filter base now =
      put "$or"
        (arr (
          objects (
            ((status_field, str pending_status) ∷ [])
            ∷ ((lease_expires_at_field, operator "$lt" (date now)) ∷ [])
            ∷ [])))
        base

  unfoldable pub claim_update : String → ℕ → Update
  claim_update leased_by until = record {
    set =
        (status_field, str processing_status)
        ∷ (leased_by_field, str leased_by)
        ∷ (lease_expires_at_field, date until)
        ∷ [];
    set_on_insert = [];
    unset = [];
    inc = [];
  }

  unfoldable pub lease : Option (Object Value) → ℕ → String → ℕ → Outcome LeaseError LeaseCommand
  lease filter lease_for leased_by now =
      throw_if (not (ltb 0 lease_for)) lease_for_not_positive
      >> throw_if (str_eq leased_by "") leased_by_empty
      >> returns (record {
        query = claim_filter (elim filter [ none ↦ [] | some f ↦ f ]) now;
        update = claim_update leased_by (now + lease_for);
        sort = some names.sort;
      })

  -- The caller's own lease, not over yet.
  unfoldable pub own_filter : String → Value → String → ℕ → Object Value
  own_filter id_field id leased_by now =
      put lease_expires_at_field (operator "$gt" (date now))
        (put leased_by_field (str leased_by) ((id_field, id) ∷ []))

  unfoldable pub extend : String → Value → String → ℕ → ℕ → Outcome LeaseError LeaseCommand
  extend id_field id leased_by lease_for now =
      throw_if (not (ltb 0 lease_for)) lease_for_not_positive
      >> returns (record {
        query = own_filter id_field id leased_by now;
        update = record {
          set = (lease_expires_at_field, date (now + lease_for)) ∷ [];
          set_on_insert = [];
          unset = [];
          inc = [];
        };
        sort = none;
      })

  unfoldable pub release :
      String → Value → String → Option String → ℕ → Outcome LeaseError LeaseCommand
  release id_field id leased_by final_status now =
      throw_if (str_eq leased_by "") leased_by_empty
      >> returns (record {
        query = own_filter id_field id leased_by now;
        update = record {
          set = (status_field, str (or_status final_status done_status)) ∷ [];
          set_on_insert = [];
          unset = leased_by_field ∷ lease_expires_at_field ∷ [];
          inc = [];
        };
        sort = none;
      })
