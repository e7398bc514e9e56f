-- ===== src/Service/Freshness/Sources.antt =====
-- The sources that internal/service/freshness.go's `uniqueSources` keeps.
use mcp_grand_lyon.Base.{List, All, ◌=ₛ◌, eq_iff}
use mcp_grand_lyon.Base.Unique.{HasDistinctKeys, HasKey, unique_by-distinct_complete}
use mcp_grand_lyon.Model.Envelope.{SourceProvenance}
use mcp_grand_lyon.Service.Freshness.{source_key, unique_sources}

-- The sources that are kept have distinct keys, and every source's key is kept.
pub unique_sources-distinct_complete :
    (vs : List SourceProvenance)
    → HasDistinctKeys source_key (unique_sources vs)
      × All (λ v. HasKey source_key v (unique_sources vs)) vs
unfolding unique_sources
unique_sources-distinct_complete vs = unique_by-distinct_complete ◌=ₛ◌ source_key eq_iff vs
