-- ===== src/Tests/Scrape.antt =====
-- A line of the scraped text.
use secure_gpu_inference_gat.Prelude.{◌≡◌, refl, [], ◌∷◌}
use secure_gpu_inference_gat.Text.{decimal}
use secure_gpu_inference_gat.Metrics.Render.{
  whole, escape_label_value, format_number, format_sample,
}
use secure_gpu_inference_gat.Sorting.{sorted}
use secure_gpu_inference_gat.Text.Affix.{join}

line :
    format_sample decimal decimal
      (record { name = "requests"; labels = ("model", "m\"") ∷ ("a", "b") ∷ []; value = whole 12 })
    ≡ "requests{a=\"b\",model=\"m\\\"\"} 12"
unfolding format_sample format_number join sorted escape_label_value decimal
line = refl
