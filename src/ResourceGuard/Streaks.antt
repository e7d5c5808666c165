-- ===== src/ResourceGuard/Streaks.antt =====
-- sniff4hound/resource_guard.py: what the counts of consecutive samples over a limit amount to.
use sniff4hound.Prelude.{ℕ, ◌≡◌, not, ◌&&◌, arith, nat_beq}
use sniff4hound.ResourceGuard.{
  Kind, PerKind, of_kind, Config, Guard, trip_samples, is_over, count_over, count_all, observe,
}

three_counts :
    (a b c d e f n : ℕ)
    → nat_beq (count_over e f (count_over c d (count_over a b n))) trip_samples
      ≡ (is_over e f && is_over c d && not (is_over a b))
three_counts a b c d e f n = ground arith

-- The count of a kind after three samples, whatever limits each of them had and whatever was counted
-- before, stands at the number that trips exactly when the kind is over its limit in the last two
-- and was not in the one before these.
pub observe-trip_samples :
    (k : Kind) (c₁ c₂ c₃ : Config) (m₁ m₂ m₃ : PerKind) (g : Guard)
    → nat_beq (of_kind (observe c₃ m₃ (observe c₂ m₂ (observe c₁ m₁ g))).over k) trip_samples ≡ (
        is_over (of_kind c₃.limits k) (of_kind m₃ k)
        && is_over (of_kind c₂.limits k) (of_kind m₂ k)
        && not (is_over (of_kind c₁.limits k) (of_kind m₁ k)))
unfolding observe count_all
observe-trip_samples Kind.cpu c₁ c₂ c₃ m₁ m₂ m₃ g =
    three_counts c₁.limits.cpu_of m₁.cpu_of c₂.limits.cpu_of m₂.cpu_of c₃.limits.cpu_of m₃.cpu_of
      g.over.cpu_of
observe-trip_samples Kind.ram c₁ c₂ c₃ m₁ m₂ m₃ g =
    three_counts c₁.limits.ram_of m₁.ram_of c₂.limits.ram_of m₂.ram_of c₃.limits.ram_of m₃.ram_of
      g.over.ram_of
observe-trip_samples Kind.storage c₁ c₂ c₃ m₁ m₂ m₃ g =
    three_counts c₁.limits.storage_of m₁.storage_of c₂.limits.storage_of m₂.storage_of
      c₃.limits.storage_of m₃.storage_of g.over.storage_of
