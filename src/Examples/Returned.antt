-- ===== src/Examples/Returned.antt =====
-- The analysis of the small graph as a whole.
use blast_radius.Base.{◌≡◌, refl, false, ok}
use blast_radius.Analysis.Outcome.{AnalysisResult}
use blast_radius.Analysis.Analyze.{analyze, over_limit}
use blast_radius.Analysis.Analyze.Returns.{Answers, analyze-Answers}
use blast_radius.Examples.{small, small-IsDigraph}

small_within : over_limit small ≡ false
unfolding over_limit
small_within = refl

analyze-Answers_example :
    (r : AnalysisResult) × (analyze small "main" ≡ ok r) × Answers small small-IsDigraph r
analyze-Answers_example = analyze-Answers small small-IsDigraph refl "main" small_within
