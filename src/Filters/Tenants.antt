-- ===== src/Filters/Tenants.antt =====
-- What a filter keeps apart.
use juris_mind_ai.Filters.{
  match_value, Metadata, Filter, FieldCondition, match_condition, build_metadata_filter, filter_of,
}
use juris_mind_ai.Base.Text.{Str, text as lit}
use mathlib.Core.List.{mem-append_right, not-mem-nil, Mem, mem-cons_self}
use juris_mind_ai.Base.{some, List, [], ◌∷◌, ◌≡◌, refl}

filter_of-Mem :
    (cs : List FieldCondition) (c : FieldCondition)
    → Mem c cs
    → (f : Filter) × (filter_of cs ≡ some f) × Mem c f.must
unfolding filter_of
filter_of-Mem [] c h = absurd (not-mem-nil h)
filter_of-Mem (x ∷ cs) c h = (record { must = x ∷ cs }, refl, h)

-- Whatever else is asked for, a filter for a tenant is there, and demands that tenant of every
-- hit.
pub build_metadata_filter-tenant :
    (m : Metadata) (tenant : Str)
    → m.tenant_id ≡ some tenant
    → (f : Filter) × (build_metadata_filter m ≡ some f)
      × Mem (match_value (lit "tenant_id") tenant) f.must
unfolding build_metadata_filter match_condition
build_metadata_filter-tenant m tenant given = rw given (
    filter_of-Mem _ (match_value (lit "tenant_id") tenant) (
      mem-append_right (match_condition (lit "company") m.company) (
        mem-append_right (match_condition (lit "ticker") m.ticker) (
          mem-append_right (match_condition (lit "document_type") m.document_type) mem-cons_self))))
