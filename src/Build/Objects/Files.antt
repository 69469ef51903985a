-- ===== src/Build/Objects/Files.antt =====
-- What the functions of file.cpp leave: the object folder stays, and they end by themselves.
use cake.Prelude.{◌≤◌, ◌≡◌, length}
use cake.Text.{Text}
use cake.System.{Os, Machine, Stop}
use cake.System.Ends.{Ends}
use cake.File.{exists, path, mkpath, is_older}
use cake.File.Steady.{
  IsSteady, exists-Preserves, path-Preserves, mkpath-Preserves, is_older-Preserves,
}
use cake.Build.Objects.Machine.{Stays}

module _ {W : Type 0} (os : Os W) (E : Stop → Type 0) (d : Text) where
  abbrev pub InFolder : Machine W → Type 0
  InFolder s = s.objdir ≡ d

  pub folder-IsSteady : IsSteady os InFolder
  folder-IsSteady = record {
    fopen = λ t s p. p;
    fread = λ h n s p. p;
    fclose = λ h s p. p;
    complain = λ t s p. p;
    newest = λ t f s e p. p;
  }

  pub exists-Stays : (f : Text) → Stays os E d (exists os f)
  exists-Stays f = exists-Preserves os E InFolder folder-IsSteady f

  pub path-Stays :
      (p : Text)
      → Ends E (λ s. s.objdir ≡ d) (path os p) (λ a s. (s.objdir ≡ d) × (length a ≤ length p))
  path-Stays p = path-Preserves os E InFolder folder-IsSteady p

  pub mkpath-Stays : (f : Text) → Stays os E d (mkpath os f)
  mkpath-Stays f = mkpath-Preserves os E InFolder folder-IsSteady (λ t s p. p) f

  pub is_older-Stays : (f : Text) → Stays os E d (is_older os f)
  is_older-Stays f = is_older-Preserves os E InFolder folder-IsSteady f
