-- ===== src/Lease/Tests.antt =====
-- Two workers and one leased document in memory.
use mongokit.Prelude.{
  ◌≡◌, refl, true, false, none, some, [], ◌∷◌, ◌&&◌, str_eq, arith, if◌then◌else◌,
}
use mongokit.Js.Object.{get, has, put}
use mongokit.Js.Value.{undefined, str, object, objects, fields}
use mongokit.Mongo.Memory.{clause, holds, same, satisfies, satisfies_all}
use mongokit.Mongo.Memory.Order.{below}
use mongokit.Mongo.Memory.Store.{Document, documents, updated}
use mongokit.Mongo.Memory.Instance.{collection, documents-IsStandard}
use mongokit.Lease.{
  LeaseCommand, default_options, claim_filter, claim_update, own_filter, lease, release,
}
use mongokit.Lease.Laws.{lease-exclusive}

abbrev job : Document
job f = if str_eq f "status" then str "pending" else if str_eq f "_id" then str "j" else undefined

-- "w" leases the job at 100 for 50.
abbrev leased : LeaseCommand
leased = record {
  query = claim_filter default_options [] 100;
  update = claim_update default_options "w" 150;
  sort = some default_options.sort;
}

-- The same worker asks again.
abbrev other_lease : LeaseCommand
other_lease = record {
  query = claim_filter default_options (("kind", str "mail") ∷ []) 120;
  update = claim_update default_options "w" 130;
  sort = some default_options.sort;
}

abbrev releasing : LeaseCommand
releasing = record {
  query = own_filter default_options "_id" (str "j") "w" 120;
  update = record {
    set = ("status", str "done") ∷ [];
    set_on_insert = [];
    unset = "leasedBy" ∷ "leaseExpiresAt" ∷ [];
    inc = [];
  };
  sort = none;
}

lease-exclusive_example :
    let e = updated leased.update job in
    (documents.holds other_lease.query e ≡ false)
    × (documents.holds releasing.query e ≡ (documents.clause "_id" (str "j") e && str_eq "w" "w"))
unfolding lease release has
lease-exclusive_example =
    lease-exclusive (collection "_id") documents-IsStandard [] 50 100 "w" leased
      (("kind", str "mail") ∷ []) 10 120 "w" other_lease (str "j") none releasing job refl refl refl
      refl (omega arith)

-- At 151 the lease is over, and another worker's filter selects the job again.
recovered : documents.holds (claim_filter default_options [] 151) (updated leased.update job) ≡ true
unfolding claim_filter claim_update holds clause satisfies_all satisfies same below object objects
    fields get put
recovered = refl
