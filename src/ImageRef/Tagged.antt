-- ===== src/ImageRef/Tagged.antt =====
-- `split_name_suffix` puts the last component of a reference in a form that it leaves alone.
use beiran.Base.{All, Free, List, Text, [], ap, has, join, join-split, refl, split}
use beiran.Base.{split-All-Free, split-Free, split-append, ◌++◌, ◌∙◌, ◌∷◌, ◌≡◌}
use beiran.ImageRef.{at, colon, default_tag, split_digest, split_name_suffix, split_tag}

-- The last component with its name, sign and suffix written out.
unfoldable pub tagged : Text → Text
tagged s = let (name, sign, suffix) = split_name_suffix s in name ++ (sign ++ suffix)

-- A text with one `@`, or with one `:`, is the whole of its own tagged form.
tagged_digest :
    (name digest : Text)
    → Free at name
    → Free at digest
    → tagged (name ++ (at ∷ digest)) ≡ name ++ (at ∷ digest)
unfolding tagged split_name_suffix
tagged_digest name digest hn hd = rw (split-append at name digest hn, split-Free at digest hd)

-- Whatever the split at `@` gives, a text that splits in two at `:` keeps its form.
tagged_parts :
    (s name tag : Text) (parts : List Text)
    → join (at ∷ []) parts ≡ s
    → split colon s ≡ name ∷ tag ∷ []
    → name ++ (colon ∷ tag) ≡ s
    → let (n, sign, suffix) = split_digest s parts in n ++ (sign ++ suffix) ≡ s
unfolding split_digest split_tag
tagged_parts s name tag (a ∷ b ∷ []) e h k = e
tagged_parts s name tag [] e h k = rw h k
tagged_parts s name tag (a ∷ []) e h k = rw h k
tagged_parts s name tag (a ∷ b ∷ c ∷ parts) e h k = rw h k

tagged_tag :
    (name tag : Text)
    → Free colon name
    → Free colon tag
    → tagged (name ++ (colon ∷ tag)) ≡ name ++ (colon ∷ tag)
unfolding tagged split_name_suffix
tagged_tag name tag hn ht =
    tagged_parts _ name tag (split at _) (join-split at _)
      (split-append colon name tag hn ∙ ap (λ r. name ∷ r) (split-Free colon tag ht)) refl

default_tag-Free : Free colon default_tag
unfolding has
default_tag-Free = refl

split_tag-tagged :
    (parts : List Text)
    → All (Free colon) parts
    → let (name, sign, suffix) = split_tag parts in
      tagged (name ++ (sign ++ suffix)) ≡ name ++ (sign ++ suffix)
unfolding split_tag
split_tag-tagged [] h = tagged_tag [] default_tag (unfold has in refl) default_tag-Free
split_tag-tagged (name ∷ []) h = tagged_tag name default_tag h.0 default_tag-Free
split_tag-tagged (name ∷ tag ∷ parts) h = tagged_tag name tag h.0 h.1.0

split_digest-tagged :
    (s : Text) (parts : List Text)
    → All (Free at) parts
    → let (name, sign, suffix) = split_digest s parts in
      tagged (name ++ (sign ++ suffix)) ≡ name ++ (sign ++ suffix)
unfolding split_digest
split_digest-tagged s (name ∷ digest ∷ []) h = tagged_digest name digest h.0 h.1.0
split_digest-tagged s [] h = split_tag-tagged (split colon s) (split-All-Free colon s)
split_digest-tagged s (a ∷ []) h = split_tag-tagged (split colon s) (split-All-Free colon s)
split_digest-tagged s (a ∷ b ∷ c ∷ parts) h =
    split_tag-tagged (split colon s) (split-All-Free colon s)

-- Tagging a tagged component changes nothing.
pub tagged-tagged : (s : Text) → tagged (tagged s) ≡ tagged s
unfolding tagged split_name_suffix
tagged-tagged s = split_digest-tagged s (split at s) (split-All-Free at s)
