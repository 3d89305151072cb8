-- ===== src/System/Tables/Containers.antt =====
-- The output of docker ps is read back.
use yacul.Common.{true, All, ap, false, ◌∙◌, refl, [], get_or, ◌==◌, ◌≡◌, ◌++◌, ◌∷◌, List, ℕ}
use yacul.System.Tables.{containers_of, fetch_docker_containers, tab, DockerContainer, container_of}
use yacul.System.Streams.{bytes_eq, put_char, newline, lines, Bytes}
use yacul.System.Streams.Reading.{None-append, lines-append, None}

abbrev Plain : Bytes → Type 0
Plain s = None (λ c. c == tab) s × None (λ c. c == newline) s

-- No field holds a tab or a newline.
pub record IsPlain (c : DockerContainer) : Type 0 where
  pub id : Plain c.id
  pub name : Plain c.name
  pub image : Plain c.image
  pub status : Plain c.status
  pub state : Plain c.state
  pub created : Plain c.created

-- The format of the command.
abbrev pub print_container : DockerContainer → Bytes
print_container c =
    c.id
    ++ tab ∷ (c.name ++ tab ∷ (c.image ++ tab ∷ (c.status ++ tab ∷ (c.state ++ tab ∷ c.created))))

abbrev pub print_containers : List DockerContainer → Bytes
print_containers [] = []
print_containers (c ∷ cs) = print_container c ++ newline ∷ print_containers cs

put_char-first : (c : ℕ) (ls : List Bytes) → get_or [] (put_char c ls) 0 ≡ c ∷ get_or [] ls 0
put_char-first c [] = refl
put_char-first c (l ∷ ls) = refl

-- The last field has no separator behind it, and may be empty.
lines_last : (sep : ℕ) (s : Bytes) → None (λ c. c == sep) s → get_or [] (lines sep s) 0 ≡ s
unfolding lines
lines_last sep [] h = refl
lines_last sep (c ∷ s) h =
    rw h.0 (put_char-first c (lines sep s) ∙ ap (λ (t : Bytes). c ∷ t) (lines_last sep s h.1))

container_of-print : (c : DockerContainer) → IsPlain c → container_of (print_container c) ≡ c
unfolding container_of
container_of-print c v =
    rw
      (
        lines-append tab c.id _ v.id.0,
        lines-append tab c.name _ v.name.0,
        lines-append tab c.image _ v.image.0,
        lines-append tab c.status _ v.status.0,
        lines-append tab c.state _ v.state.0,
        lines_last tab c.created v.created.0,
      )
      refl

field-newline :
    (s t : Bytes)
    → None (λ c. c == newline) s
    → None (λ c. c == newline) t
    → None (λ c. c == newline) (s ++ tab ∷ t)
field-newline s t hs ht = None-append (λ c. c == newline) s (tab ∷ t) hs (refl, ht)

print_container-newline :
    (c : DockerContainer) → IsPlain c → None (λ d. d == newline) (print_container c)
print_container-newline c v = field-newline c.id _ v.id.1 (
    field-newline c.name _ v.name.1 (
      field-newline c.image _ v.image.1 (
        field-newline c.status _ v.status.1
          (field-newline c.state c.created v.state.1 v.created.1))))

not_empty : (s t : Bytes) → bytes_eq (s ++ tab ∷ t) [] ≡ false
not_empty [] t = refl
not_empty (c ∷ s) t = refl

containers_of-print :
    (cs : List DockerContainer)
    → All IsPlain cs
    → containers_of (lines newline (print_containers cs)) ≡ cs
unfolding containers_of lines
containers_of-print [] v = refl
containers_of-print (c ∷ cs) v =
    rw
      (
        lines-append newline (print_container c) (print_containers cs)
            (print_container-newline c v.0),
        not_empty c.id _,
        container_of-print c v.0,
        containers_of-print cs v.1,
      )
      refl

-- FetchDockerContainers reads back the containers that docker ps prints in the format of the command, where
-- no field holds a tab or a newline; fields may be empty.
pub fetch_docker_containers-print :
    (cs : List DockerContainer)
    → All IsPlain cs
    → fetch_docker_containers true (print_containers cs) ≡ cs
unfolding fetch_docker_containers
fetch_docker_containers-print cs v = containers_of-print cs v
